-- ===== src/Worker/Reports.antt =====
-- What the worker notes on a row while it follows an execution: errors, and that a cancellation was
-- sent (`_record_execution_error`, `_record_reconciliation_error`, `_ensure_cancel_sent` of
-- backend/app/services/queue_worker.py).
pub mod Sent
pub mod Overridden
use comfyui_image_frontend.Prelude.{
  ℕ, String, Bool, true, false, not, ◌&&◌, Option, none, some, List, [], ◌∷◌, ◌++◌, any, str_eq,
  if◌then◌else◌,
}
use comfyui_image_frontend.Json.{
  Value, null, bool, str, dict, Fields, end, field, get_or, put, remove, truthy,
}
use comfyui_image_frontend.Status.{cancel_requested, status_eq, is_terminal}
use comfyui_image_frontend.Database.{Generation, GenerationEvent, generation_event}

abbrev is_null : Value → Bool
is_null null = true
is_null _ = false

-- `{key: data.get(key) for key in keys if data.get(key) is not None}`
abbrev pub selected : List String → Fields → Fields
selected [] m = end
selected (k ∷ ks) m =
    let rest = selected ks m in
    if is_null (get_or k m null) then rest else field k (get_or k m null) rest

abbrev error_fields : String → String → Fields
error_fields code message = field "code" (str code) (field "message" (str message) end)

abbrev pub entry : String → String → Value
entry code message = dict (error_fields code message)

abbrev pub execution_failure : String
execution_failure = "ComfyUI failed during workflow execution."

-- _record_execution_error
unfoldable pub record_execution_error : ℕ → Fields → Generation → Generation × GenerationEvent
unfolding generation_event
record_execution_error now m g =
    let g' : Generation = record g {
      internal_diagnostics_json =
          put "comfyui_execution_error"
            (dict (selected ("node_id" ∷ "node_type" ∷ "exception_type" ∷ []) m))
            g.internal_diagnostics_json;
      error_code = some "execution_failed";
      error_message = some execution_failure;
      result_errors_json = g.result_errors_json ++ entry "execution_failed" execution_failure ∷ [];
    } in
    (
      g',
      generation_event now g' "generation.error"
          (error_fields "execution_failed" execution_failure),
    )

abbrev pub has_error_code : String → Value → Bool
has_error_code code (dict m) = elim (get_or "code" m null) [ str c ↦ str_eq c code | _ ↦ false ]
has_error_code code _ = false

abbrev pub reconciliation_failed : String
reconciliation_failed = "history_reconciliation_failed"

abbrev pub reconciliation_failure : String
reconciliation_failure = "ComfyUI returned execution state that could not be reconciled safely."

-- One error of this code, however often it is met
abbrev pub note_once : String → String → List Value → List Value
note_once code message errors =
    if any (has_error_code code) errors then errors else errors ++ entry code message ∷ []

abbrev pub note_reconciliation : String → Generation → Generation
note_reconciliation code g = record g {
  internal_diagnostics_json =
      put "history_reconciliation_error" (dict (field "code" (str code) end))
        g.internal_diagnostics_json;
  error_code = some reconciliation_failed;
  error_message = some reconciliation_failure;
  result_errors_json = note_once reconciliation_failed reconciliation_failure g.result_errors_json;
}

-- _record_reconciliation_error, with the code of the application's error
unfoldable pub record_reconciliation_error :
    ℕ → String → Generation → Option (Generation × GenerationEvent)
unfolding generation_event is_terminal
record_reconciliation_error now code g =
    if is_terminal g.status
    then none
    else some (
      note_reconciliation code g,
      generation_event now (note_reconciliation code g) "generation.error"
          (error_fields reconciliation_failed reconciliation_failure),
    )

abbrev pub mark_sent : Generation → Generation
mark_sent g = record g {
  internal_diagnostics_json = put "cancel_sent" (bool true) g.internal_diagnostics_json;
}

-- A cancellation is requested, and not marked as sent.
abbrev pub is_due : Generation → Bool
is_due g =
    status_eq g.status cancel_requested
    && not (truthy (get_or "cancel_sent" g.internal_diagnostics_json null))

-- The first transaction of `_ensure_cancel_sent`: whether the cancellation is to be sent now.
unfoldable pub ensure_cancel_sent : Generation → Generation × Bool
ensure_cancel_sent g = if is_due g then (mark_sent g, true) else (g, false)

-- Its second transaction, where the sending fails.
unfoldable pub forget_cancel_sent : Generation → Generation
forget_cancel_sent g = record g {
  internal_diagnostics_json = remove "cancel_sent" g.internal_diagnostics_json;
}

-- _ensure_cancel_sent, with whether the runtime takes the message; the result tells if it was sent.
unfoldable pub try_cancel : Bool → Generation → Generation × Bool
unfolding ensure_cancel_sent forget_cancel_sent
try_cancel taken g =
    let (g', send) = ensure_cancel_sent g in
    if send then (if taken then (g', true) else (forget_cancel_sent g', false)) else (g', false)
