-- ===== src/Lifecycle.antt =====
-- The life of one generation as steps: the transactions of the queue worker, of its owner and of the
-- preemption, each from the point at which the worker's task stands (`_dispatch_iteration`, `_execute`,
-- `_submit_and_mark_running`, `_finalize` of backend/app/services/queue_worker.py,
-- `_cancel_transaction` of backend/app/services/generations.py). A step has no condition on the row
-- but those that the code tests.
pub mod Consistency
pub mod Notes
pub mod Phases
pub mod Final
use comfyui_image_frontend.Prelude.{
  ℕ, String, ◌≡◌, ◌≢◌, ◌⊎◌, Option, some, none, List, Bool, true, false, ◌&&◌, if◌then◌else◌,
}
use comfyui_image_frontend.Json.{Value, Fields}
use comfyui_image_frontend.Status.{queued, cancel_requested}
use comfyui_image_frontend.Database.{Generation, GenerationEvent, Artifact}
use comfyui_image_frontend.Worker.Transactions.{
  Txn, is_some_text, dispatch, requeue_unstarted_claim, GraphState, missing, cancelled, ready,
  save_graph, submit_and_mark_running, Requeue, requeue_after_outage, Failure, fail_before_start,
  Cancel, requested, cancel_transaction,
}
use comfyui_image_frontend.Worker.History.{Outcome}
use comfyui_image_frontend.Worker.Recovery.{Runtimes, recover, in_flight}
use comfyui_image_frontend.Worker.Reports.{
  record_execution_error, record_reconciliation_error, ensure_cancel_sent, forget_cancel_sent,
}
use comfyui_image_frontend.Archive.{
  Declaration, StoredImage, Archived, insert_artifact, NativeFileOutput,
}
use comfyui_image_frontend.Archive.Failures.{
  record_persistence_failure, record_archived_source_reference, clear_persistence_failure,
}
use comfyui_image_frontend.Archive.Failures as Failures
use comfyui_image_frontend.Scheduler.Activity.{revoke}
use comfyui_image_frontend.Finalize.Record.{NormalizedHistory}
use comfyui_image_frontend.Finalize.Commit.{Committed, commit_finalization}

-- Where the worker stands with the generation: no task works on it; it is claimed, and its task is
-- not started; `_execute` runs up to `save_graph`, then up to the transaction of the submission; that
-- is committed, and `_submit_and_mark_running` has not returned; the prompt is followed (`_monitor`,
-- or the reconciliation at a start); `_finalize` is called.
pub data Phase : Type 0 where
  idle claimed loading submitting submitted following ending : Phase

abbrev pub after_graph : GraphState → Phase
after_graph missing = idle
after_graph cancelled = ending
after_graph ready = submitting

abbrev pub after_outage : Requeue → Phase
after_outage r = if r.cancelled then ending else idle

-- After a restart the prompts of the rows in flight are reconciled.
abbrev pub resumed : Generation → Phase
resumed g = if in_flight g && is_some_text g.comfyui_prompt_id then following else idle

-- Other writes of the worker to the row: what it archived, and what it notes.
pub data Note (g : Generation) : Generation → Type 0 where
  archived :
      (now : ℕ) (new_id : String) (d : Declaration) (stored : StoredImage)
      (artifacts : List Artifact) {a : Archived}
      → insert_artifact now new_id d stored g artifacts ≡ some a
      → Note g a.generation
  not_archived :
      (now : ℕ) (f : NativeFileOutput) (e : Failures.Failure)
      → Note g (record_persistence_failure now f e g).0
  source : (f : NativeFileOutput) → Note g (record_archived_source_reference f g)
  cleared : (f : NativeFileOutput) → Note g (clear_persistence_failure f g)
  execution_error : (now : ℕ) (m : Fields) → Note g (record_execution_error now m g).0
  reconciliation_error :
      (now : ℕ) (code : String) {r : Generation × GenerationEvent}
      → record_reconciliation_error now code g ≡ some r
      → Note g r.0
  sent : Note g (ensure_cancel_sent g).0
  not_sent : Note g (forget_cancel_sent g)

pub data Step : Generation → Phase → Generation → Phase → Type 0 where
  claim :
      (g : Generation) (now : ℕ) (target : String) (label : Option String)
      → g.status ≡ queued
      → Step g idle (dispatch now target label g).0 claimed
  -- the task could not be started
  unclaim : (g : Generation) (now : ℕ) → Step g claimed (requeue_unstarted_claim now g).0 idle
  begin : (g : Generation) → Step g claimed g loading
  -- an earlier task of the generation has not ended yet, and the new one is closed
  dropped : (g : Generation) → Step g claimed g idle
  -- `load_execution` finds it cancelled
  found_cancelled : (g : Generation) → g.status ≡ cancel_requested → Step g loading g ending
  graph :
      (g : Generation) (v : Value) (sha256 : String)
      → Step g loading (save_graph v sha256 g).0 (after_graph (save_graph v sha256 g).1)
  outage :
      (g : Generation) (p : Phase) (now : ℕ)
      → (p ≡ loading) ⊎ (p ≡ submitting)
      → Step g p (requeue_after_outage now g).txn.0 (after_outage (requeue_after_outage now g))
  submit :
      (g : Generation) (isoformat : ℕ → String) (now : ℕ) (prompt_id : String)
      → prompt_id ≢ ""
      → Step g submitting (submit_and_mark_running isoformat now prompt_id g).0.0 submitted
  fail :
      (g : Generation) (p : Phase) (now : ℕ) (exc : Failure)
      → (p ≡ loading) ⊎ ((p ≡ submitting) ⊎ (p ≡ submitted))
      → Step g p (fail_before_start now exc g).0 idle
  monitor : (g : Generation) → Step g submitted g following
  end_monitor : (g : Generation) → Step g following g ending
  finalize :
      (g : Generation) (now : ℕ) (raw : Fields) (n : NormalizedHistory) (o : Outcome)
      (artifacts : List Artifact) {c : Committed}
      → commit_finalization now raw n o artifacts g ≡ some c
      → Step g ending c.generation idle
  -- a finalization that finds the row terminal
  skip_finalize : (g : Generation) → Step g ending g idle
  -- the owner cancels, or deletes what is not terminal
  cancel :
      (g : Generation) (p : Phase) (now : ℕ) (deleting : Bool) {t : Txn}
      {target : Option (String × String)}
      → cancel_transaction now deleting g ≡ requested t target
      → Step g p t.0 p
  preempted : (g : Generation) (p : Phase) (now : ℕ) → Step g p (revoke now g) p
  note : (g h : Generation) (p : Phase) → Note g h → Step g p h p
  -- the worker stops at any point and starts again
  restart :
      (g : Generation) (p : Phase) (now : ℕ) (r : Runtimes)
      → Step g p (recover now r g).0 (resumed (recover now r g).0)

pub data Reach (g : Generation) (p : Phase) : Generation → Phase → Type 0 where
  here : Reach g p g p
  next : {h i : Generation} {q r : Phase} → Reach g p h q → Step h q i r → Reach g p i r

-- What `_prepare_accept` inserts, in the columns that the queue works on.
pub record IsAccepted (g : Generation) : Type 0 where
  pub status : g.status ≡ queued
  pub no_worker : g.comfyui_instance_id ≡ none
  pub no_prompt : g.comfyui_prompt_id ≡ none
  pub no_graph : g.submitted_graph_json ≡ none
  pub not_completed : g.completed_at ≡ none
  pub kept : g.pending_delete ≡ false
