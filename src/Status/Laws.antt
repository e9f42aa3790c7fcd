-- ===== src/Status/Laws.antt =====
-- What the table of transitions allows (backend/app/domain/status.py).
use comfyui_image_frontend.Prelude.{◌≡◌, refl, ◌∙◌, subst, true, not, arith}
use comfyui_image_frontend.Errors.{ok}
use comfyui_image_frontend.Status.{
  GenerationStatus, queued, dispatching, running, cancel_requested, succeeded,
  cancelled_with_artifacts, cancelled_without_artifacts, failed_with_artifacts,
  failed_without_artifacts, interrupted, is_terminal, is_active, assert_transition,
}

abbrev pub Allowed : GenerationStatus → GenerationStatus → Type 0
Allowed s t = assert_transition s t ≡ ok tt

-- A walk along allowed transitions.
pub data Walk : GenerationStatus → GenerationStatus → Type 0 where
  stop : {s : GenerationStatus} → Walk s s
  step : {s t u : GenerationStatus} → Allowed s t → Walk t u → Walk s u

-- From a terminal status nothing but staying is allowed.
terminal-stays : (s t : GenerationStatus) → is_terminal s ≡ true → Allowed s t → s ≡ t
unfolding assert_transition is_terminal
terminal-stays s t h a = ground arith

Walk-stays : {s t : GenerationStatus} → Walk s t → is_terminal s ≡ true → s ≡ t
Walk-stays stop h = refl
Walk-stays (step {s} {t} a w) h =
    let same : s ≡ t = terminal-stays s t h a in
    same ∙ Walk-stays w (subst (λ u. is_terminal u ≡ true) same h)

active-not-terminal : (s : GenerationStatus) → is_active s ≡ not (is_terminal s)
unfolding is_active is_terminal
active-not-terminal queued = refl
active-not-terminal s = ground arith

finish : (s : GenerationStatus) → (t : GenerationStatus) × (is_terminal t ≡ true) × Walk s t
unfolding is_terminal assert_transition
finish queued = (cancelled_without_artifacts, refl, step refl stop)
finish dispatching = (interrupted, refl, step refl stop)
finish running = (succeeded, refl, step refl stop)
finish cancel_requested = (interrupted, refl, step refl stop)
finish succeeded = (succeeded, refl, stop)
finish cancelled_with_artifacts = (cancelled_with_artifacts, refl, stop)
finish cancelled_without_artifacts = (cancelled_without_artifacts, refl, stop)
finish failed_with_artifacts = (failed_with_artifacts, refl, stop)
finish failed_without_artifacts = (failed_without_artifacts, refl, stop)
finish interrupted = (interrupted, refl, stop)

-- Every walk along allowed transitions that starts at a terminal status stays there; a status is
-- active exactly when it is not terminal, and from each active one some walk leads to a terminal one.
pub Walk-laws :
    (s : GenerationStatus)
    → (is_active s ≡ not (is_terminal s))
      × ((t : GenerationStatus) → is_terminal s ≡ true → Walk s t → s ≡ t)
      × ((t : GenerationStatus) × (is_terminal t ≡ true) × Walk s t)
Walk-laws s = (active-not-terminal s, λ t h w. Walk-stays w h, finish s)
