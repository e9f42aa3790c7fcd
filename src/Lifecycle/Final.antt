-- ===== src/Lifecycle/Final.antt =====
-- Terminal statuses are final, and a generation is retried once in its life.
use comfyui_image_frontend.Prelude.{
  ℕ, String, ◌≡◌, refl, ◌∙◌, subst, ap, ◌⊎◌, inl, inr, Option, some, List, Bool, true, false, arith,
}
use comfyui_image_frontend.Json.{Value, Fields, truthy}
use comfyui_image_frontend.Status.{queued, is_terminal, is_active}
use comfyui_image_frontend.Database.{Generation, Artifact}
use comfyui_image_frontend.Worker.Transactions.{
  Txn, dispatch, requeue_unstarted_claim, save_graph, submit_and_mark_running, requeue_after_outage,
  Failure, fail_before_start, requested, cancel_transaction,
}
use comfyui_image_frontend.Worker.Recovery.{Runtimes, recover}
use comfyui_image_frontend.Worker.History.{Outcome}
use comfyui_image_frontend.Scheduler.Activity.{revoke}
use comfyui_image_frontend.Finalize.Record.{NormalizedHistory}
use comfyui_image_frontend.Finalize.Commit.{Committed, commit_finalization}
use comfyui_image_frontend.Finalize.Outcome.{marker, ResultOf}
use comfyui_image_frontend.Finalize.Retry.{
  commit_finalization_settles, settled_if_marked, marked_of,
}
use comfyui_image_frontend.Lifecycle.{
  Phase, idle, loading, submitting, submitted, ending, Step, claim, unclaim, begin, dropped,
  found_cancelled, graph, outage, submit, fail, monitor, end_monitor, finalize, skip_finalize,
  cancel, preempted, note, restart, Reach, here, next, IsAccepted,
}
use comfyui_image_frontend.Lifecycle.Notes.{IsNoted, Note-IsNoted}
use comfyui_image_frontend.Lifecycle.Phases.{IsTaken, InPhase, before_submission}
use comfyui_image_frontend.Lifecycle.Consistency.{Reach-InPhase}

-- What a step that is no finalization keeps: a terminal status, and the marker of a retry while the
-- row is not terminal.
record Keeps (g h : Generation) : Type 0 where
  final : is_terminal g.status ≡ true → h.status ≡ g.status
  marked : (marker h ≡ marker g) ⊎ (is_terminal h.status ≡ true)

Keeps-all : (g : Generation) → Keeps g g
Keeps-all g = record { final = λ t. refl; marked = inl refl }

dispatch-Keeps :
    (now : ℕ) (target : String) (label : Option String) (g : Generation)
    → g.status ≡ queued
    → Keeps g (dispatch now target label g).0
unfolding dispatch is_terminal
dispatch-Keeps now target label g q = record {
  final = λ t. absurd (cc (ap is_terminal q, t));
  marked = inl refl;
}

unclaim-Keeps : (now : ℕ) (g : Generation) → Keeps g (requeue_unstarted_claim now g).0
unfolding requeue_unstarted_claim is_terminal
unclaim-Keeps now g = ground arith

graph-Keeps : (v : Value) (sha : String) (g : Generation) → Keeps g (save_graph v sha g).0
unfolding save_graph is_terminal
graph-Keeps v sha g = ground arith

submit-Keeps :
    (isoformat : ℕ → String) (now : ℕ) (p : String) (g : Generation)
    → IsTaken g
    → Keeps g (submit_and_mark_running isoformat now p g).0.0
unfolding submit_and_mark_running is_terminal
submit-Keeps isoformat now p g e = ground arith

outage-Keeps : (now : ℕ) (g : Generation) → IsTaken g → Keeps g (requeue_after_outage now g).txn.0
unfolding requeue_after_outage is_terminal
outage-Keeps now g e = ground arith

revoke-Keeps : (now : ℕ) (g : Generation) → Keeps g (revoke now g)
unfolding revoke is_active is_terminal
revoke-Keeps now g = ground arith

cancel-Keeps :
    (now : ℕ) (deleting : Bool) (g : Generation) {t : Txn} {target : Option (String × String)}
    → cancel_transaction now deleting g ≡ requested t target
    → Keeps g t.0
unfolding cancel_transaction is_terminal
cancel-Keeps now deleting g e = ground arith

recover-Keeps : (now : ℕ) (r : Runtimes) (g : Generation) → Keeps g (recover now r g).0
unfolding recover is_terminal
recover-Keeps now r g = ground arith

note-Keeps : (g h : Generation) → IsNoted g h → Keeps g h
note-Keeps g h n = record { final = λ t. n.status; marked = inl n.marked }

taken-open : (g : Generation) → IsTaken g → is_terminal g.status ≡ false
unfolding is_terminal
taken-open g e = ground arith

-- An early failure meets an open row.
fail-Keeps :
    (g : Generation) (p : Phase) (now : ℕ) (exc : Failure)
    → (p ≡ loading) ⊎ ((p ≡ submitting) ⊎ (p ≡ submitted))
    → InPhase p g
    → Keeps g (fail_before_start now exc g).0
unfolding fail_before_start is_terminal
fail-Keeps g p now exc e i = record { final = λ t. absurd (cc (open_row e, t)); marked = inr refl }
  where
    open_row : (p ≡ loading) ⊎ ((p ≡ submitting) ⊎ (p ≡ submitted)) → is_terminal g.status ≡ false
    open_row (inl e) = taken-open g (subst (λ p. InPhase p g) e i)
    open_row (inr (inl e)) = taken-open g (subst (λ p. InPhase p g) e i)
    open_row (inr (inr e)) = sent (subst (λ p. InPhase p g) e i)
      where
        sent : InPhase submitted g → is_terminal g.status ≡ false
        sent k = ground arith

-- Every step keeps it, but a finalization, which is none of a terminal row.
Step-Keeps :
    {g h : Generation} {p q : Phase}
    → Step g p h q
    → InPhase p g
    → Keeps g h ⊎ ((is_terminal g.status ≡ false) × ResultOf g h)
Step-Keeps (claim g now target label q) i = inl (dispatch-Keeps now target label g q)
Step-Keeps (unclaim g now) i = inl (unclaim-Keeps now g)
Step-Keeps (begin g) i = inl (Keeps-all g)
Step-Keeps (dropped g) i = inl (Keeps-all g)
Step-Keeps (found_cancelled g e) i = inl (Keeps-all g)
Step-Keeps (graph g v sha) i = inl (graph-Keeps v sha g)
Step-Keeps (outage g p now e) i = inl (outage-Keeps now g (before_submission p g e i))
Step-Keeps (submit g isoformat now p named) i = inl (submit-Keeps isoformat now p g i)
Step-Keeps (fail g p now exc e) i = inl (fail-Keeps g p now exc e i)
Step-Keeps (monitor g) i = inl (Keeps-all g)
Step-Keeps (end_monitor g) i = inl (Keeps-all g)
Step-Keeps (finalize g now raw n o artifacts e) i =
    inr (commit_finalization_settles now raw n o artifacts g e)
Step-Keeps (skip_finalize g) i = inl (Keeps-all g)
Step-Keeps (cancel g p now deleting e) i = inl (cancel-Keeps now deleting g e)
Step-Keeps (preempted g p now) i = inl (revoke-Keeps now g)
Step-Keeps (note g h p n) i = inl (note-Keeps g h (Note-IsNoted n))
Step-Keeps (restart g p now r) i = inl (recover-Keeps now r g)

pub Reach-Reach :
    {a g : Generation} {o p : Phase} {h : Generation} {q : Phase}
    → Reach a o g p
    → Reach g p h q
    → Reach a o h q
Reach-Reach r here = r
Reach-Reach r (next s t) = next (Reach-Reach r s) t

-- A terminal status is final: once a generation's status is terminal, no later step of any kind changes
-- it.
pub terminal-final :
    {a g : Generation} {p : Phase} {h : Generation} {q : Phase}
    → IsAccepted a
    → Reach a idle g p
    → is_terminal g.status ≡ true
    → Reach g p h q
    → h.status ≡ g.status
terminal-final a r t here = refl
terminal-final {g = g} a r t (next {h} {i} s u) =
    let same = terminal-final a r t s in
    let k : is_terminal h.status ≡ true = ap is_terminal same ∙ t in
    elim (Step-Keeps u (Reach-InPhase a (Reach-Reach r s))) [
      | inl keeps ↦ keeps.final k ∙ same
      | inr (o, _) ↦ absurd (cc (o, k))
    ]

-- Retried, or over
IsSpent : Generation → Type 0
IsSpent g = (truthy (marker g) ≡ true) ⊎ (is_terminal g.status ≡ true)

Step-IsSpent : {g h : Generation} {p q : Phase} → Step g p h q → InPhase p g → IsSpent g → IsSpent h
unfolding IsSpent
Step-IsSpent {g} {h} s i (inl m) = elim (Step-Keeps s i) [
  | inl keeps ↦ elim keeps.marked [ inl e ↦ inl (ap truthy e ∙ m) | inr t ↦ inr t ]
  | inr (o, r) ↦ inr (settled_if_marked g h m r)
]
Step-IsSpent {g} {h} s i (inr t) = elim (Step-Keeps s i) [
  | inl keeps ↦ inr (ap is_terminal (keeps.final t) ∙ t)
  | inr (o, r) ↦ absurd (cc (o, t))
]

Reach-IsSpent :
    {a g : Generation} {p : Phase} {h : Generation} {q : Phase}
    → IsAccepted a
    → Reach a idle g p
    → IsSpent g
    → Reach g p h q
    → IsSpent h
Reach-IsSpent a r m here = m
Reach-IsSpent a r m (next s t) =
    Step-IsSpent t (Reach-InPhase a (Reach-Reach r s)) (Reach-IsSpent a r m s)

-- In its whole life a generation is sent back to the queue by a finalization at most once: after a
-- finalization that left it queued, whatever happens to it, a later one leaves a terminal status.
pub requeued_at_most_once :
    {a g h : Generation} {p : Phase}
    → IsAccepted a
    → Reach a idle g ending
    → (now : ℕ) (raw : Fields) (n : NormalizedHistory) (o : Outcome) (artifacts : List Artifact)
      {c : Committed}
    → commit_finalization now raw n o artifacts g ≡ some c
    → c.generation.status ≡ queued
    → Reach c.generation idle h p
    → (now' : ℕ) (raw' : Fields) (n' : NormalizedHistory) (o' : Outcome)
      (artifacts' : List Artifact) {c' : Committed}
    → commit_finalization now' raw' n' o' artifacts' h ≡ some c'
    → is_terminal c'.generation.status ≡ true
unfolding IsSpent
requeued_at_most_once {g = g} {h = h} a r now raw n o artifacts {c} e q s now' raw' n' o' artifacts'
      {c'} e' =
    let m = marked_of g c.generation (commit_finalization_settles now raw n o artifacts g e).1 q in
    let (open_row, result) = commit_finalization_settles now' raw' n' o' artifacts' h e' in
    elim (Reach-IsSpent a (next r (finalize g now raw n o artifacts e)) (inl (ap truthy m)) s) [
      | inl marked ↦ settled_if_marked h c'.generation marked result
      | inr t ↦ absurd (cc (open_row, t))
    ]
