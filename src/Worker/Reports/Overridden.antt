-- ===== src/Worker/Reports/Overridden.antt =====
-- An error that the worker noted on the way does not outlive a success.
use mathlib.Core.List.{append-nil}
use comfyui_image_frontend.Prelude.{
  ℕ, ◌≡◌, refl, ap, ◌∙◌, subst, some_inj, inl, inr, String, none, some, List, [], ◌∷◌, ◌++◌,
  filter-append, Bool-cases, any,
}
use comfyui_image_frontend.Json.{Value, Fields}
use comfyui_image_frontend.Status.{is_terminal}
use comfyui_image_frontend.Database.{Generation, GenerationEvent}
use comfyui_image_frontend.Worker.History.{success}
use comfyui_image_frontend.Worker.Reports.{
  record_execution_error, record_reconciliation_error, note_once, note_reconciliation,
  has_error_code, entry, execution_failure, reconciliation_failure, reconciliation_failed,
}
use comfyui_image_frontend.Finalize.Record.{NormalizedHistory, record_history, kept_errors}

entry-dropped :
    (code message : String) (errors : List Value)
    → kept_errors success (entry code message ∷ []) ≡ []
    → kept_errors success (errors ++ entry code message ∷ []) ≡ kept_errors success errors
entry-dropped code message errors h =
    filter-append _ errors (entry code message ∷ [])
    ∙ ap (λ (es : List Value). kept_errors success errors ++ es) h
    ∙ append-nil (kept_errors success errors)

-- The errors of a row after the history of a success is recorded are those of another row.
pub record AgreesOnErrors (g h : Generation) : Type 0 where
  pub errors : g.result_errors_json ≡ h.result_errors_json
  pub no_code : g.error_code ≡ none
  pub no_message : g.error_message ≡ none

pub note-dropped :
    (code message : String) (errors : List Value)
    → kept_errors success (entry code message ∷ []) ≡ []
    → kept_errors success (note_once code message errors) ≡ kept_errors success errors
note-dropped code message errors h = elim (Bool-cases (any (has_error_code code) errors)) [
  | inl e ↦ rw e refl
  | inr e ↦ rw e (entry-dropped code message errors h)
]

reconciliation-row :
    (now : ℕ) (code : String) (g h : Generation) (event : GenerationEvent)
    → record_reconciliation_error now code g ≡ some (h, event)
    → note_reconciliation code g ≡ h
unfolding record_reconciliation_error
reconciliation-row now code g h event e = elim (Bool-cases (is_terminal g.status)) [
  | inl t ↦ absurd (cc (rw t at e))
  | inr t ↦ ap (λ (p : Generation × GenerationEvent). p.0) (some_inj (rw t at e))
]

-- An error that the worker noted on the way leaves no trace among the errors of a success: whether it
-- noted that the execution failed, or that the history could not be reconciled, once the history is
-- recorded with the outcome of success the list of errors is the one that there would be without the
-- note, and the row has no error code and no message.
pub success-overrides_errors :
    (now : ℕ) (m : Fields) (code : String) (raw : Fields) (n : NormalizedHistory) (g : Generation)
    → AgreesOnErrors
        (record_history raw n success (record_execution_error now m g).0)
        (record_history raw n success g)
      × ((h : Generation) (event : GenerationEvent)
          → record_reconciliation_error now code g ≡ some (h, event)
          → AgreesOnErrors (record_history raw n success h) (record_history raw n success g))
unfolding record_history record_execution_error record_reconciliation_error
success-overrides_errors now m code raw n g = (
  record {
    errors =
        ap (λ (es : List Value). es ++ n.errors)
          (entry-dropped "execution_failed" execution_failure g.result_errors_json refl);
    no_code = refl;
    no_message = refl;
  },
  λ h event e.
      subst
        (λ (h : Generation).
          AgreesOnErrors (record_history raw n success h) (record_history raw n success g))
        (reconciliation-row now code g h event e)
        (record {
          errors =
              ap (λ (es : List Value). es ++ n.errors)
                (note-dropped reconciliation_failed reconciliation_failure g.result_errors_json
                  refl);
          no_code = refl;
          no_message = refl;
        }),
)
