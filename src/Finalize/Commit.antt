-- ===== src/Finalize/Commit.antt =====
-- The branches of `_commit_finalization` on the outcome, and the transaction as a whole
-- (backend/app/services/queue_worker.py). The update of the timing profiles (`record_success`) reads
-- the row and writes other tables.
use comfyui_image_frontend.Prelude.{
  ℕ, String, Bool, true, false, not, ◌&&◌, Option, none, some, List, [], ◌∷◌, ◌++◌, any, filter,
  is_empty, length, str_eq, if◌then◌else◌,
}
use comfyui_image_frontend.Prelude.Int.{pos}
use comfyui_image_frontend.Json.{
  Value, null, bool, int, str, list, dict, nil, Fields, end, field, get_or, put, remove, truthy,
}
use comfyui_image_frontend.Status.{
  GenerationStatus, queued, cancel_requested, succeeded, cancelled_with_artifacts,
  cancelled_without_artifacts, failed_with_artifacts, failed_without_artifacts, value, status_eq,
  is_terminal,
}
use comfyui_image_frontend.Status
use comfyui_image_frontend.Database.{Generation, Artifact, GenerationEvent, generation_event}
use comfyui_image_frontend.Artifacts.{sort, newest_first}
use comfyui_image_frontend.Worker.Transactions.{release_worker, opt_str, is_some_text}
use comfyui_image_frontend.Worker.History.{
  Outcome, success, cancelled, failed, interrupted, sources_were_absent, cached_node_count,
}
use comfyui_image_frontend.Finalize.Record.{NormalizedHistory, has_code, record_history}
use comfyui_image_frontend.Finalize.Retention.{
  Kept, pruned, id_of, first_or, declared_finals, presentation, retain_success, salvage,
  retain_partial,
}

-- What the transaction returns, with the artifacts that are left in the table.
pub record Committed : Type 0 where
  pub generation : Generation
  pub artifacts : List Artifact
  pub event : GenerationEvent
  pub pending_delete : Bool
  pub pruned_paths : List String
  pub requeued_from : Option String

-- A row and its artifacts on the way to the commit.
pub record Draft : Type 0 where
  pub generation : Generation
  pub kept : Kept

abbrev pub is_some {ℓ} : {A : Type ℓ} → Option A → Bool
is_some none = false
is_some (some a) = true

-- A complete success.
unfoldable pub succeed : List Artifact → Generation → Draft
unfolding retain_success presentation declared_finals
succeed artifacts g = record {
  generation = record g {
    canonical_artifact_id = id_of (first_or none (declared_finals artifacts));
    best_available_artifact_id = id_of (presentation artifacts);
    final_artifact_count = length (declared_finals artifacts);
    status = succeeded;
  };
  kept = retain_success artifacts;
}

abbrev pub abandoned : List String
abandoned =
    "artifact_persistence_failures" ∷ "artifact_persistence_warnings" ∷ "archived_comfyui_sources"
    ∷ "comfyui_source_cleanup_complete" ∷ "comfyui_source_cleanup_error" ∷ []

unfoldable pub remove_all : List String → Fields → Fields
remove_all [] m = m
remove_all (k ∷ ks) m = remove_all ks (remove k m)

unfoldable pub retry_diagnostics : Fields → Fields → Fields
unfolding remove_all cached_node_count
retry_diagnostics raw_history diagnostics =
    put "comfyui_absent_sources_cached_nodes" (int (pos (cached_node_count raw_history)))
      (put "comfyui_absent_sources_retry" (bool true) (remove_all abandoned diagnostics))

-- A success whose sources were all absent goes back to the queue once.
unfoldable pub requeue_absent : Fields → Generation → Generation
unfolding retry_diagnostics release_worker
requeue_absent raw_history g = release_worker (record g {
  internal_diagnostics_json = retry_diagnostics raw_history g.internal_diagnostics_json;
  result_warnings_json = [];
  result_errors_json =
      filter (λ v. not (has_code (str_eq "artifact_persistence_failed") v)) g.result_errors_json;
  status = queued;
  comfyui_prompt_id = none;
  submitted_graph_json = none;
  submitted_graph_sha256 = none;
  progress_json = none;
})

abbrev pub error_entry : String → String → Value
error_entry code message = dict (field "code" (str code) (field "message" (str message) end))

abbrev archive_failure : String
archive_failure = "ComfyUI completed, but one or more outputs could not be archived."

unfoldable pub fail_persistence : Generation → Generation
fail_persistence g = record g {
  error_code = some "artifact_persistence_failed";
  error_message = some archive_failure;
  result_errors_json =
      g.result_errors_json ++ error_entry "artifact_persistence_failed" archive_failure ∷ [];
}

-- `text or default`
unfoldable pub text_or : Option String → String → String
text_or none d = d
text_or (some t) d = if str_eq t "" then d else t

-- The error code, unless it is empty or listed already, joins the errors.
unfoldable pub note_error : Generation → Generation
unfolding text_or
note_error g = elim g.error_code [
  | none ↦ g
  | some code ↦
      if is_some_text (some code) && not (any (has_code (str_eq code)) g.result_errors_json)
      then record g {
        result_errors_json =
            g.result_errors_json
            ++ error_entry code (text_or g.error_message "Generation did not complete.") ∷ [];
      }
      else g
]

abbrev pub counts_as_cancelled : Outcome → GenerationStatus → Bool
counts_as_cancelled cancelled s = true
counts_as_cancelled failed s = false
counts_as_cancelled _ s = status_eq s cancel_requested

abbrev pub partial_status : Outcome → Bool → Bool → GenerationStatus
partial_status interrupted on_cancel found = Status.interrupted
partial_status _ on_cancel found =
    if on_cancel
    then (if found then cancelled_with_artifacts else cancelled_without_artifacts)
    else (if found then failed_with_artifacts else failed_without_artifacts)

unfoldable pub partial_error : Outcome → Bool → Generation → Generation
unfolding text_or
partial_error interrupted on_cancel g = record g {
  error_code = some (text_or g.error_code "execution_interrupted");
  error_message =
      some
        (text_or g.error_message "Execution outcome could not be reconciled from ComfyUI history.");
}
partial_error _ on_cancel g = if on_cancel then g else record g {
  error_code = some (text_or g.error_code "execution_failed");
  error_message =
      some (text_or g.error_message "Workflow execution failed before a final image was archived.");
}

abbrev pub partial_row : Outcome → Bool → Option Artifact → Generation → Generation
partial_row outcome on_cancel best g = record g {
  canonical_artifact_id = none;
  best_available_artifact_id = id_of best;
  status = partial_status outcome on_cancel (is_some best);
}

-- The outcomes `cancelled`, `failed` and `interrupted`.
unfoldable pub fall_short : Outcome → List Artifact → Generation → Draft
unfolding salvage retain_partial note_error partial_error
fall_short outcome artifacts g =
    let on_cancel = counts_as_cancelled outcome g.status in
    let best = salvage on_cancel artifacts in
    record {
      generation = note_error (
          partial_error outcome on_cancel (record g {
            canonical_artifact_id = none;
            best_available_artifact_id = id_of best;
            status = partial_status outcome on_cancel (is_some best);
          }));
      kept = retain_partial best artifacts;
    }

-- What follows every terminal outcome.
unfoldable pub conclude : ℕ → Draft → Committed
unfolding generation_event
conclude now d =
    let g = record (d.generation) {
      artifact_count = length d.kept.artifacts;
      completed_at = some now;
      current_stage_id = none;
      current_stage_label = none;
      progress_json = none;
    } in
    record {
      generation = g;
      artifacts = d.kept.artifacts;
      event = generation_event now g "generation.terminal" (
          field "status" (str (value g.status)) (
            field "canonical_artifact_id" (opt_str g.canonical_artifact_id) (
              field "best_available_artifact_id" (opt_str g.best_available_artifact_id)
                (field "error" (opt_str g.error_message) end))));
      pending_delete = g.pending_delete;
      pruned_paths = pruned d.kept.deleted;
      requeued_from = none;
    }

abbrev retry_reason : String
retry_reason =
    "ComfyUI reported a completed run whose output files were already archived and removed. Retrying once with a cleared execution cache."

unfoldable pub conclude_requeued : ℕ → Option String → List Artifact → Generation → Committed
unfolding generation_event
conclude_requeued now served_by artifacts g = record {
  generation = g;
  artifacts = artifacts;
  event = generation_event now g "generation.requeued" (field "reason" (str retry_reason) end);
  pending_delete = false;
  pruned_paths = [];
  requeued_from = served_by;
}

abbrev pub failures_of : Generation → Value
failures_of g = get_or "artifact_persistence_failures" g.internal_diagnostics_json (list nil)

-- The condition of the one retry.
unfoldable pub may_retry : List Artifact → Generation → Bool
unfolding sources_were_absent
may_retry artifacts g =
    is_empty artifacts
    && not (truthy (get_or "comfyui_absent_sources_retry" g.internal_diagnostics_json null))
    && sources_were_absent (failures_of g)

unfoldable pub settle : ℕ → Fields → Outcome → List Artifact → Generation → Committed
unfolding succeed requeue_absent fail_persistence fall_short conclude conclude_requeued may_retry
settle now raw_history success artifacts g =
    if not (truthy (failures_of g))
    then conclude now (succeed artifacts g)
    else if may_retry artifacts g
    then conclude_requeued now g.comfyui_instance_id artifacts (requeue_absent raw_history g)
    else conclude now (fall_short failed artifacts (fail_persistence g))
settle now raw_history outcome artifacts g = conclude now (fall_short outcome artifacts g)

-- _commit_finalization on a row that was found, with its artifacts.
unfoldable pub commit_finalization :
    ℕ → Fields → NormalizedHistory → Outcome → List Artifact → Generation → Option Committed
unfolding settle record_history sort
commit_finalization now raw_history normalized outcome artifacts g =
    if is_terminal g.status
    then none
    else some (
        settle now raw_history outcome (sort newest_first artifacts)
          (record_history raw_history normalized outcome g))
