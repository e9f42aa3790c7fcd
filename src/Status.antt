-- ===== src/Status.antt =====
-- The status of a generation (backend/app/models.py) and the declared table of its transitions
-- (backend/app/domain/status.py).
pub mod Laws
use comfyui_image_frontend.Prelude.{
  ℕ, String, Bool, true, false, List, [], ◌∷◌, any, ◌==◌, concat, if◌then◌else◌,
}
use comfyui_image_frontend.Errors.{Result, ok, raised, app_error}

pub data GenerationStatus : Type 0 where
  queued dispatching running cancel_requested : GenerationStatus
  succeeded cancelled_with_artifacts cancelled_without_artifacts : GenerationStatus
  failed_with_artifacts failed_without_artifacts interrupted : GenerationStatus

-- The member's text.
unfoldable pub value : GenerationStatus → String
value queued = "queued"
value dispatching = "dispatching"
value running = "running"
value cancel_requested = "cancel_requested"
value succeeded = "succeeded"
value cancelled_with_artifacts = "cancelled_with_artifacts"
value cancelled_without_artifacts = "cancelled_without_artifacts"
value failed_with_artifacts = "failed_with_artifacts"
value failed_without_artifacts = "failed_without_artifacts"
value interrupted = "interrupted"

abbrev rank : GenerationStatus → ℕ
rank queued = 0
rank dispatching = 1
rank running = 2
rank cancel_requested = 3
rank succeeded = 4
rank cancelled_with_artifacts = 5
rank cancelled_without_artifacts = 6
rank failed_with_artifacts = 7
rank failed_without_artifacts = 8
rank interrupted = 9

-- `==` of two members.

abbrev pub status_eq : GenerationStatus → GenerationStatus → Bool
status_eq a b = rank a == rank b

-- TERMINAL_STATUSES
unfoldable pub is_terminal : GenerationStatus → Bool
is_terminal queued = false
is_terminal dispatching = false
is_terminal running = false
is_terminal cancel_requested = false
is_terminal _ = true

-- ACTIVE_STATUSES
unfoldable pub is_active : GenerationStatus → Bool
is_active queued = true
is_active dispatching = true
is_active running = true
is_active cancel_requested = true
is_active _ = false

-- ALLOWED_TRANSITIONS
unfoldable pub allowed_transitions : GenerationStatus → List GenerationStatus
allowed_transitions queued = dispatching ∷ cancelled_without_artifacts ∷ []
allowed_transitions dispatching =
    queued ∷ running ∷ cancel_requested ∷ failed_without_artifacts ∷ interrupted ∷ []
allowed_transitions running =
    cancel_requested ∷ succeeded ∷ failed_with_artifacts ∷ failed_without_artifacts
    ∷ cancelled_with_artifacts ∷ cancelled_without_artifacts ∷ interrupted ∷ []
allowed_transitions cancel_requested =
    succeeded ∷ cancelled_with_artifacts ∷ cancelled_without_artifacts ∷ failed_with_artifacts
    ∷ failed_without_artifacts ∷ interrupted ∷ []
allowed_transitions _ = []

unfoldable pub assert_transition : GenerationStatus → GenerationStatus → Result (Unit {0})
unfolding allowed_transitions value
assert_transition current target =
    if status_eq current target
    then ok tt
    else if any (λ s. status_eq s target) (allowed_transitions current)
    then ok tt
    else raised (
        app_error "invalid_status_transition"
          (concat (
            "Generation cannot transition from "
            ∷ value current
            ∷ " to "
            ∷ value target
            ∷ "."
            ∷ []))
          409)
