-- ===== src/Finalize/Outcome.antt =====
-- The status that a finalization leaves.
use comfyui_image_frontend.Prelude.{
  ℕ, ◌≡◌, refl, ◌∙◌, ap, inl, inr, ◌≢◌, Bool, true, false, Option, none, some, String, List, arith,
  Bool-cases,
}
use comfyui_image_frontend.Json.{Value, bool, int, Fields, get_or, put, truthy, null}
use comfyui_image_frontend.Json.Laws.{get-put}
use comfyui_image_frontend.Status.{queued, is_terminal}
use comfyui_image_frontend.Database.{Generation, Artifact}
use comfyui_image_frontend.Worker.History.{
  Outcome, success, cancelled, failed, interrupted, cached_node_count,
}
use comfyui_image_frontend.Prelude.Int.{pos}
use comfyui_image_frontend.Finalize.Retention.{salvage}
use comfyui_image_frontend.Finalize.Commit.{
  Draft, succeed, fall_short, note_error, fail_persistence, requeue_absent, conclude, may_retry,
  settle, is_some, conclude_requeued, partial_status, counts_as_cancelled, partial_row, failures_of,
  partial_error, retry_diagnostics, remove_all, abandoned,
}

abbrev retry_key : String
retry_key = "comfyui_absent_sources_retry"

abbrev cached_key : String
cached_key = "comfyui_absent_sources_cached_nodes"

abbrev value_or : Value → Option Value → Value
value_or d none = d
value_or d (some v) = v

abbrev pub marker : Generation → Value
marker g = get_or "comfyui_absent_sources_retry" g.internal_diagnostics_json null

-- Back in the queue, with no worker and no prompt, and marked as retried.
pub record IsRequeued (g : Generation) : Type 0 where
  pub status : g.status ≡ queued
  pub unpinned : g.comfyui_instance_id ≡ none
  pub no_prompt : g.comfyui_prompt_id ≡ none
  pub no_graph : g.submitted_graph_json ≡ none
  pub no_progress : g.progress_json ≡ none
  pub marked : marker g ≡ bool true

note_error-status : (g : Generation) → (note_error g).status ≡ g.status
unfolding note_error
note_error-status g = ground arith

partial_error-status :
    (outcome : Outcome) (on_cancel : Bool) (g : Generation)
    → (partial_error outcome on_cancel g).status ≡ g.status
unfolding partial_error
partial_error-status interrupted on_cancel g = refl
partial_error-status _ on_cancel g = ground arith

pub fall_short-status :
    (outcome : Outcome) (artifacts : List Artifact) (g : Generation)
    → let on_cancel = counts_as_cancelled outcome g.status in
      (fall_short outcome artifacts g).generation.status
      ≡ partial_status outcome on_cancel (is_some (salvage on_cancel artifacts))
unfolding fall_short
fall_short-status outcome artifacts g =
    let on_cancel = counts_as_cancelled outcome g.status in
    let row = partial_row outcome on_cancel (salvage on_cancel artifacts) g in
    note_error-status (partial_error outcome on_cancel row)
    ∙ partial_error-status outcome on_cancel row

fall_short-terminal :
    (outcome : Outcome) (artifacts : List Artifact) (g : Generation)
    → is_terminal (fall_short outcome artifacts g).generation.status ≡ true
unfolding is_terminal
fall_short-terminal outcome artifacts g = rw fall_short-status (ground arith)

requeue_absent-IsRequeued : (raw : Fields) (g : Generation) → IsRequeued (requeue_absent raw g)
unfolding requeue_absent retry_diagnostics
requeue_absent-IsRequeued raw g = record {
  status = refl;
  unpinned = refl;
  no_prompt = refl;
  no_graph = refl;
  no_progress = refl;
  marked =
      let stored : Fields = remove_all abandoned g.internal_diagnostics_json in
      let count : Value = int (pos (cached_node_count raw)) in
      ap (value_or null) (
        get-put cached_key retry_key count (put retry_key (bool true) stored)
        ∙ get-put retry_key retry_key (bool true) stored);
}

-- Terminal, with the time of its completion and no progress.
pub record IsFinished (g : Generation) : Type 0 where
  pub status : is_terminal g.status ≡ true
  pub completed : g.completed_at ≢ none
  pub no_progress : g.progress_json ≡ none

conclude-IsFinished :
    (now : ℕ) (d : Draft)
    → is_terminal d.generation.status ≡ true
    → IsFinished (conclude now d).generation
unfolding conclude
conclude-IsFinished now d t = record { status = t; completed = λ e. cc; no_progress = refl }

-- What a commit leaves: a terminal status with the time of its completion, or a requeued row.
pub data ResultOf (g : Generation) (c : Generation) : Type 0 where
  finished : IsFinished c → ResultOf g c
  requeued :
      truthy (marker g) ≡ false → IsRequeued c → c.completed_at ≡ g.completed_at → ResultOf g c

conclude-succeed :
    (now : ℕ) (artifacts : List Artifact) (g : Generation)
    → IsFinished (conclude now (succeed artifacts g)).generation
unfolding succeed is_terminal
conclude-succeed now artifacts g = conclude-IsFinished now (succeed artifacts g) refl

conclude-fall_short :
    (now : ℕ) (o : Outcome) (artifacts : List Artifact) (g : Generation)
    → IsFinished (conclude now (fall_short o artifacts g)).generation
conclude-fall_short now o artifacts g =
    conclude-IsFinished now (fall_short o artifacts g) (fall_short-terminal o artifacts g)

may_retry-unmarked :
    (artifacts : List Artifact) (g : Generation)
    → may_retry artifacts g ≡ true
    → truthy (marker g) ≡ false
unfolding may_retry
may_retry-unmarked artifacts g h = ground arith

pub settle-ResultOf :
    (now : ℕ) (raw : Fields) (outcome : Outcome) (artifacts : List Artifact) (g : Generation)
    → ResultOf g (settle now raw outcome artifacts g).generation
unfolding settle conclude_requeued requeue_absent
settle-ResultOf now raw success artifacts g = elim (Bool-cases (truthy (failures_of g))) [
  | inr none_failed ↦ rw none_failed (finished (conclude-succeed now artifacts g))
  | inl some_failed ↦ rw some_failed (elim (Bool-cases (may_retry artifacts g)) [
    | inl again ↦
        rw again
          (requeued (may_retry-unmarked artifacts g again) (requeue_absent-IsRequeued raw g) refl)
    | inr over ↦ rw over (finished (conclude-fall_short now failed artifacts (fail_persistence g)))
  ])
]
settle-ResultOf now raw cancelled artifacts g =
    finished (conclude-fall_short now cancelled artifacts g)
settle-ResultOf now raw failed artifacts g = finished (conclude-fall_short now failed artifacts g)
settle-ResultOf now raw interrupted artifacts g =
    finished (conclude-fall_short now interrupted artifacts g)
