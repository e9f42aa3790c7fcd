-- ===== src/Finalize/Retry.antt =====
-- When a finalization sends a generation back to the queue, and how often.
use comfyui_image_frontend.Prelude.{
  ℕ, ◌≡◌, refl, sym, subst, ap, ◌⊎◌, inl, inr, true, false, some, List, [], arith,
}
use comfyui_image_frontend.Json.{Value, bool, Fields, truthy}
use comfyui_image_frontend.Status.{
  GenerationStatus, queued, running, cancel_requested, is_terminal, assert_transition,
}
use comfyui_image_frontend.Status.Laws.{Allowed}
use comfyui_image_frontend.Database.{Generation, Artifact}
use comfyui_image_frontend.Artifacts.{sort, newest_first}
use comfyui_image_frontend.Worker.History.{Outcome, success, sources_were_absent}
use comfyui_image_frontend.Finalize.Record.{NormalizedHistory, record_history}
use comfyui_image_frontend.Finalize.Commit.{
  Committed, failures_of, may_retry, requeue_absent, conclude_requeued, settle, commit_finalization,
}
use comfyui_image_frontend.Finalize.Outcome.{
  marker, IsRequeued, ResultOf, finished, requeued, settle-ResultOf,
}

pub commit-inversion :
    (now : ℕ) (raw : Fields) (n : NormalizedHistory) (o : Outcome) (artifacts : List Artifact)
    (g : Generation) {c : Committed}
    → commit_finalization now raw n o artifacts g ≡ some c
    → (is_terminal g.status ≡ false)
      × (settle now raw o (sort newest_first artifacts) (record_history raw n o g) ≡ c)
unfolding commit_finalization
commit-inversion now raw n o artifacts g h = ground arith

-- A finalization happens only to a generation that is not terminal yet. It leaves a terminal status
-- with a completion time and no progress; or else the row is queued again with no worker, no prompt,
-- no submitted graph, no progress and the marker of its one retry, it did not carry that marker
-- before, and its completion time is unchanged.
pub commit_finalization_settles :
    (now : ℕ) (raw : Fields) (n : NormalizedHistory) (o : Outcome) (artifacts : List Artifact)
    (g : Generation) {c : Committed}
    → commit_finalization now raw n o artifacts g ≡ some c
    → (is_terminal g.status ≡ false) × ResultOf g c.generation
unfolding record_history
commit_finalization_settles now raw n o artifacts g {c} h =
    let (open_row, e) = commit-inversion now raw n o artifacts g h in
    let g' = record_history raw n o g in
    (
      open_row,
      moved (
          subst (λ (d : Committed). ResultOf g' d.generation) e
            (settle-ResultOf now raw o (sort newest_first artifacts) g')),
    )
  where
    moved : {d : Generation} → ResultOf (record_history raw n o g) d → ResultOf g d
    moved (finished t) = finished t
    moved (requeued u r e) = requeued u r e

pub settled_if_marked :
    (g : Generation) (c : Generation)
    → truthy (marker g) ≡ true
    → ResultOf g c
    → is_terminal c.status ≡ true
settled_if_marked g c m (finished t) = t.status
settled_if_marked g c m (requeued u r e) = cc

pub marked_of : (g d : Generation) → ResultOf g d → d.status ≡ queued → marker d ≡ bool true
unfolding is_terminal
marked_of g d (finished t) e = cc (t.status, ap is_terminal e)
marked_of g d (requeued u r _) e = r.marked

from_running : (t : GenerationStatus) → is_terminal t ≡ true → Allowed running t
unfolding is_terminal assert_transition
from_running queued k = cc
from_running _ k = ground arith

from_cancel_requested : (t : GenerationStatus) → is_terminal t ≡ true → Allowed cancel_requested t
unfolding is_terminal assert_transition
from_cancel_requested queued k = cc
from_cancel_requested _ k = ground arith

Allowed-or_IsRequeued :
    (g c : Generation)
    → (g.status ≡ running) ⊎ (g.status ≡ cancel_requested)
    → ResultOf g c
    → Allowed g.status c.status ⊎ IsRequeued c
Allowed-or_IsRequeued g c (inl e) (finished t) =
    inl (subst (λ s. Allowed s c.status) (sym e) (from_running c.status t.status))
Allowed-or_IsRequeued g c (inr e) (finished t) =
    inl (subst (λ s. Allowed s c.status) (sym e) (from_cancel_requested c.status t.status))
Allowed-or_IsRequeued g c _ (requeued u r _) = inr r

-- A finalization of a running or cancel-requested generation makes a transition that the declared
-- table allows, unless it sends the generation back to the queue.
pub commit_finalization-Allowed :
    (now : ℕ) (raw : Fields) (n : NormalizedHistory) (o : Outcome) (artifacts : List Artifact)
    (g : Generation) {c : Committed}
    → (g.status ≡ running) ⊎ (g.status ≡ cancel_requested)
    → commit_finalization now raw n o artifacts g ≡ some c
    → Allowed g.status c.generation.status ⊎ IsRequeued c.generation
commit_finalization-Allowed now raw n o artifacts g {c} s h =
    Allowed-or_IsRequeued g c.generation s (commit_finalization_settles now raw n o artifacts g h).1

queued-not_Allowed :
    (s : GenerationStatus) → (s ≡ running) ⊎ (s ≡ cancel_requested) → ¬ Allowed s queued
unfolding assert_transition
queued-not_Allowed s (inl e) a = cc (subst (λ u. Allowed u queued) e a)
queued-not_Allowed s (inr e) a = cc (subst (λ u. Allowed u queued) e a)

absent-truthy : (v : Value) → sources_were_absent v ≡ true → truthy v ≡ true
unfolding sources_were_absent
absent-truthy v h = ground arith

settle-absent :
    (now : ℕ) (raw : Fields) (g : Generation)
    → sources_were_absent (failures_of g) ≡ true
    → truthy (marker g) ≡ false
    → settle now raw success [] g
      ≡ conclude_requeued now g.comfyui_instance_id [] (requeue_absent raw g)
unfolding settle may_retry
settle-absent now raw g absent unmarked =
    simp (absent-truthy (failures_of g) absent, absent, unmarked)

-- The retry forgets a cancellation: when ComfyUI reports success for a generation whose cancellation
-- was requested, nothing of it was archived, every recorded failure is a missing source and it was
-- not retried before, then it is queued again, although the declared table does not allow this
-- transition; its request to be deleted stays on the row, and the caller is told that there is none.
pub absent_sources_lose_cancellation :
    (now : ℕ) (raw : Fields) (n : NormalizedHistory) (g : Generation)
    → g.status ≡ cancel_requested
    → sources_were_absent (failures_of g) ≡ true
    → truthy (marker g) ≡ false
    → (c : Committed) × (commit_finalization now raw n success [] g ≡ some c)
      × (c.generation.status ≡ queued)
      × (c.generation.pending_delete ≡ g.pending_delete)
      × (c.pending_delete ≡ false)
      × (¬ Allowed g.status c.generation.status)
unfolding commit_finalization settle may_retry requeue_absent conclude_requeued is_terminal
absent_sources_lose_cancellation now raw n g s absent unmarked =
    let g' = record_history raw n success g in
    (
      conclude_requeued now g.comfyui_instance_id [] (requeue_absent raw g'),
      rw s (ap some (settle-absent now raw g' absent unmarked)),
      refl,
      refl,
      refl,
      queued-not_Allowed g.status (inr s),
    )
