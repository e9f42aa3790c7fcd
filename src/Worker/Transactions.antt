-- ===== src/Worker/Transactions.antt =====
-- The transactions of the queue worker on one generation before its terminal result, and the
-- owner's cancellation (backend/app/services/generations.py). Each is the body of a
-- `with session` block on a row that was found: it returns the row to commit, with the events
-- that it adds.
use comfyui_image_frontend.Prelude.{
  ℕ, String, Bool, true, false, not, ◌&&◌, Option, none, some, List, [], ◌∷◌, str_eq, if◌then◌else◌,
}
use comfyui_image_frontend.Json.{Value, null, str, dict, Fields, end, field, remove}
use comfyui_image_frontend.Status.{
  queued, dispatching, running, cancel_requested, cancelled_without_artifacts,
  failed_without_artifacts, value, status_eq, is_terminal,
}
use comfyui_image_frontend.Database.{Generation, GenerationEvent, generation_event}

abbrev pub Txn : Type 0
Txn = Generation × List GenerationEvent

abbrev pub is_some_text : Option String → Bool
is_some_text none = false
is_some_text (some t) = not (str_eq t "")

abbrev pub opt_str : Option String → Value
opt_str none = null
opt_str (some t) = str t

-- _release_worker
unfoldable pub release_worker : Generation → Generation
release_worker g = record g { comfyui_instance_id = none; comfyui_instance_label = none }

abbrev or_else : Option String → Option String → Option String
or_else none d = d
or_else (some t) d = some t

abbrev claimed_label : String → Option String → Option String
claimed_label target_id chosen = if is_some_text chosen then chosen else some target_id

-- The writes of `_claim_next` to the row that it chose; `label` is the label of the worker's
-- configuration, if the worker is configured.
unfoldable pub dispatch : ℕ → String → Option String → Generation → Txn
unfolding generation_event
dispatch now target_id label g =
    let named = claimed_label target_id (or_else label g.comfyui_instance_label) in
    let g' = record g {
      status = dispatching;
      execution_timing_json = none;
      progress_json = none;
      comfyui_instance_id = some target_id;
      comfyui_instance_label = named;
    } in
    (
      g',
      generation_event now g' "generation.dispatching" (
            field "status" (str (value dispatching)) (
              field "comfyui_instance_id" (str target_id)
                (field "comfyui_instance_label" (opt_str named) end)))
          ∷ [],
    )

-- _requeue_unstarted_claim
unfoldable pub requeue_unstarted_claim : ℕ → Generation → Txn
unfolding generation_event release_worker
requeue_unstarted_claim now g =
    if status_eq g.status dispatching && not (is_some_text g.comfyui_prompt_id)
    then (let g' = release_worker (record g { status = queued; progress_json = none }) in
        (
          g',
          generation_event now g' "generation.requeued"
                (field "reason" (str "Dispatch task could not be scheduled.") end)
              ∷ [],
        ))
    else (g, [])

-- The result of `save_graph` in `_execute`.
pub data GraphState : Type 0 where
  missing cancelled ready : GraphState

-- save_graph; `sha256` is the digest of the graph (`sha256_json`).
unfoldable pub save_graph : Value → String → Generation → Generation × GraphState
save_graph materialized sha256 g = if status_eq g.status cancel_requested then (g, cancelled) else (
  record g { submitted_graph_json = some materialized; submitted_graph_sha256 = some sha256 },
  ready,
)

-- `_progress_snapshot(kind="indeterminate", label=label, identities={})`
unfoldable pub indeterminate_progress : String → String → Value
indeterminate_progress now_text label = dict (
    field "kind" (str "indeterminate") (
      field "node_id" null (
        field "display_node_id" null (
          field "real_node_id" null (
            field "parent_node_id" null (
              field "label" (str label) (
                field "value" null (
                  field "maximum" null
                    (field "fraction" null (field "updated_at" (str now_text) end))))))))))

-- submit_and_mark_running_transaction: the row, its events, and whether the prompt must be
-- cancelled at once. `isoformat` is the text of a time.
unfoldable pub submit_and_mark_running : (ℕ → String) → ℕ → String → Generation → Txn × Bool
unfolding generation_event indeterminate_progress
submit_and_mark_running isoformat now prompt_id g =
    let sent = record g { comfyui_prompt_id = some prompt_id; dispatched_at = some now } in
    if status_eq g.status cancel_requested
    then ((sent, []), true)
    else (let g' = record sent {
      status = running;
      started_at = some now;
      execution_timing_json = none;
      progress_json = some (indeterminate_progress (isoformat now) "Starting workflow");
    } in
        (
          (
            g',
            generation_event now g' "generation.running" (field "status" (str (value running)) end)
                ∷ [],
          ),
          false,
        ))

-- The result of `requeue` in `_requeue_after_outage`: a cancelled row goes on to
-- `_finish_without_execution`, and an unreachable worker is recorded as such.
pub record Requeue : Type 0 where
  pub txn : Txn
  pub cancelled : Bool
  pub unreachable : Option String

unfoldable pub requeue_after_outage : ℕ → Generation → Requeue
unfolding generation_event release_worker
requeue_after_outage now g =
    if status_eq g.status cancel_requested
    then record { txn = (g, []); cancelled = true; unreachable = none }
    else (let g' = record g {
      status = queued;
      submitted_graph_json = none;
      submitted_graph_sha256 = none;
      progress_json = none;
    } in
        record {
          txn = (
            release_worker g',
            generation_event now g' "generation.requeued"
                  (field "reason" (str "ComfyUI is temporarily unavailable.") end)
                ∷ [],
          );
          cancelled = false;
          unreachable = g.comfyui_instance_id;
        })

-- What `_fail_before_start` reads of an exception.
pub record Failure : Type 0 where
  pub type_name : String
  pub code : Option String
  pub message : Option String
  pub details : Fields

abbrev or_default : Option String → String → String
or_default none d = d
or_default (some t) d = t

-- _fail_before_start: the row and its event; `pending_delete` then deletes the row.
unfoldable pub fail_before_start : ℕ → Failure → Generation → Txn
unfolding generation_event
fail_before_start now exc g =
    let code = or_default exc.code "comfyui_prompt_rejected" in
    let message = or_default exc.message "The workflow could not be dispatched to ComfyUI." in
    let g' = record g {
      status = failed_without_artifacts;
      error_code = some code;
      error_message = some message;
      result_errors_json = dict (field "code" (str code) (field "message" (str message) end)) ∷ [];
      completed_at = some now;
      progress_json = none;
      internal_diagnostics_json =
          field "exception_type" (str exc.type_name)
            (field "queue_validation" (dict exc.details) end);
    } in
    (
      g',
      generation_event now g' "generation.terminal" (
            field "status" (str (value failed_without_artifacts)) (field "error" (str message) end))
          ∷ [],
    )

-- _fail_ambiguous_submission
unfoldable pub fail_ambiguous_submission : ℕ → String → Generation → Txn
unfolding fail_before_start
fail_ambiguous_submission now transport = fail_before_start now (record {
  type_name = "AppError";
  code = some "comfyui_submission_uncertain";
  message = some "ComfyUI did not confirm whether the workflow request was accepted.";
  details = field "transport" (str transport) end;
})

-- The result of `_cancel_transaction`: the row is left, or handed to `delete_terminal`, or committed
-- with the prompt to interrupt.
pub data Cancel : Type 0 where
  unchanged : Cancel
  deleted : Generation → Cancel
  requested : Txn → Option (String × String) → Cancel

abbrev drop_eta : Option Value → Option Value
drop_eta (some (dict m)) = some (dict (remove "eta" m))
drop_eta p = p

abbrev cancel_target : Generation → Option (String × String)
cancel_target g = elim g.comfyui_instance_id [
  | none ↦ none
  | some i ↦ elim g.comfyui_prompt_id [
    | none ↦ none
    | some p ↦ if is_some_text (some p) && is_some_text (some i) then some (i, p) else none
  ]
]

-- _cancel_transaction on a row of its owner. A queued row becomes
-- `cancelled_without_artifacts` and is deleted in the same transaction.
unfoldable pub cancel_transaction : ℕ → Bool → Generation → Cancel
unfolding generation_event
cancel_transaction now deleting g =
    if is_terminal g.status
    then (if deleting then deleted g else unchanged)
    else if status_eq g.status queued
    then deleted (record g {
      status = cancelled_without_artifacts;
      cancel_requested_at = some now;
      completed_at = some now;
    })
    else (let g' = record g {
      pending_delete = if deleting then true else g.pending_delete;
      status = cancel_requested;
      cancel_requested_at = some now;
      progress_json = drop_eta g.progress_json;
    } in
        requested
          (
            g',
            generation_event now g' "generation.cancel_requested"
                  (field "status" (str (value cancel_requested)) end)
                ∷ [],
          )
          (cancel_target g))
