-- ===== src/Finalize/Record.antt =====
-- What `_commit_finalization` writes before it looks at the outcome: the history, the errors and the
-- warnings (backend/app/services/queue_worker.py).
use comfyui_image_frontend.Prelude.{
  String, Bool, true, false, not, ◌&&◌, Option, none, some, List, [], ◌∷◌, ◌++◌, map, any, filter,
  if◌then◌else◌,
}
use comfyui_image_frontend.Text.{one_of}
use comfyui_image_frontend.Json.{
  Value, null, str, list, dict, nil, Fields, end, field, get, get_or, truthy, value_eq,
}
use comfyui_image_frontend.Database.{Generation}
use comfyui_image_frontend.Worker.History.{Outcome, success, list_items}

-- The parts of `NormalizedHistory` that are stored.
pub record NormalizedHistory : Type 0 where
  pub declared_outputs : Fields
  pub unmapped_outputs : Fields
  pub status : Fields
  pub errors : List Value
  pub warnings : List String

abbrev pub is_success : Outcome → Bool
is_success success = true
is_success _ = false

abbrev pub has_code : (String → Bool) → Value → Bool
has_code test (dict m) = elim (get "code" m) [ some (str c) ↦ test c | _ ↦ false ]
has_code test _ = false

abbrev provisional_error_codes : List String
provisional_error_codes = "execution_failed" ∷ "history_reconciliation_failed" ∷ []

abbrev is_provisional_code : Option String → Bool
is_provisional_code none = false
is_provisional_code (some c) = one_of provisional_error_codes c

abbrev pub kept_errors : Outcome → List Value → List Value
kept_errors outcome =
    filter (λ v. not (is_success outcome && has_code (one_of provisional_error_codes) v))

-- `_optional_persistence_warning`
abbrev optional_persistence_warning : Fields → Value
optional_persistence_warning failure = dict (
    field "code" (str "optional_artifact_unavailable") (
      field "message"
        (str
          "An optional ComfyUI file could not be archived; its native reference remains available in the result history.")
        (field "output_id" (get_or "output_id" failure null) (
          field "node_id" (get_or "node_id" failure null) (
            field "reference"
              (dict (
                field "filename" (get_or "filename" failure null) (
                  field "subfolder" (get_or "subfolder" failure (str ""))
                    (field "type" (get_or "type" failure (str "output")) end))))
              end)))))

abbrev overridden_warning : Value
overridden_warning = dict (
    field "code" (str "websocket_outcome_overridden") (
      field "message"
        (str
          "A WebSocket execution-error hint was superseded by authoritative successful ComfyUI history.")
        end))

-- `_source_cleanup_warning`
abbrev source_cleanup_warning : Value
source_cleanup_warning = dict (
    field "code" (str "comfyui_source_cleanup_failed") (
      field "message"
        (str
          "The result is safely stored by the frontend, but its ComfyUI source file could not yet be removed. Cleanup will retry after restart.")
        end))

-- One warning for each failure, none of them twice.
unfoldable pub add_failures : List Value → List Value → List Value
unfolding value_eq
add_failures [] warnings = warnings
add_failures (dict failure ∷ rest) warnings =
    let warning = optional_persistence_warning failure in
    add_failures rest
      (if any (value_eq warning) warnings then warnings else warnings ++ warning ∷ [])
add_failures (_ ∷ rest) warnings = add_failures rest warnings

unfoldable pub result_warnings : Outcome → NormalizedHistory → Fields → List Value
unfolding add_failures
result_warnings outcome normalized diagnostics =
    let hinted =
      map str normalized.warnings
      ++ (if is_success outcome && truthy (get_or "comfyui_execution_error" diagnostics null)
          then overridden_warning ∷ []
          else []) in
    add_failures (list_items (get_or "artifact_persistence_warnings" diagnostics (list nil))) hinted
    ++ (if truthy (get_or "comfyui_source_cleanup_error" diagnostics null)
        then source_cleanup_warning ∷ []
        else [])

-- The writes before the outcome is looked at.
unfoldable pub record_history : Fields → NormalizedHistory → Outcome → Generation → Generation
unfolding result_warnings
record_history raw_history normalized outcome g =
    let superseded_code = is_success outcome && is_provisional_code g.error_code in
    record g {
      raw_history_json = raw_history;
      declared_outputs_json = normalized.declared_outputs;
      unmapped_outputs_json = normalized.unmapped_outputs;
      comfyui_status_json = normalized.status;
      error_code = if superseded_code then none else g.error_code;
      error_message = if superseded_code then none else g.error_message;
      result_errors_json = kept_errors outcome g.result_errors_json ++ normalized.errors;
      result_warnings_json = result_warnings outcome normalized g.internal_diagnostics_json;
    }
