-- ===== src/Worker/Reports/Sent.antt =====
-- How often the worker sends a cancellation to the runtime: at the submission of a prompt whose
-- generation is cancelled already (`_submit_and_mark_running`), and by `_ensure_cancel_sent` of
-- backend/app/services/queue_worker.py.
use comfyui_image_frontend.Prelude.{
  ℕ, String, ◌+◌, ◌≡◌, refl, ap, ◌∙◌, inl, inr, Bool, true, false, ◌&&◌, Option, none, some, List,
  [], ◌∷◌, any, arith, Bool-cases, if◌then◌else◌,
}
use comfyui_image_frontend.Json.{Value, null, bool, Fields, get_or, put, remove, truthy}
use comfyui_image_frontend.Json.Laws.{get-put_self, get-remove}
use comfyui_image_frontend.Status.{cancel_requested, status_eq}
use comfyui_image_frontend.Database.{Generation}
use comfyui_image_frontend.Worker.Transactions.{submit_and_mark_running}
use comfyui_image_frontend.Worker.Reports.{
  is_due, mark_sent, ensure_cancel_sent, forget_cancel_sent, try_cancel,
}

-- How often the message is sent by these calls of `_ensure_cancel_sent`, each with whether the runtime
-- takes it.
pub times_sent : List Bool → Generation → ℕ
times_sent [] g = 0
times_sent (taken ∷ rest) g =
    let (g', sent) = try_cancel taken g in
    let later = times_sent rest g' in if sent then later + 1 else later

abbrev value_or_null : Option Value → Value
value_or_null o = elim o [ none ↦ null | some v ↦ v ]

mark_sent-not_due : (g : Generation) → is_due (mark_sent g) ≡ false
mark_sent-not_due g =
    let m : Fields = g.internal_diagnostics_json in
    let e : truthy (get_or "cancel_sent" (put "cancel_sent" (bool true) m) null) ≡ true =
      ap (λ o. truthy (value_or_null o))
        (get-put_self "cancel_sent" "cancel_sent" (bool true) m refl) in
    rw e (ground arith)

forget-is_due :
    (g : Generation)
    → status_eq g.status cancel_requested ≡ true
    → is_due (forget_cancel_sent g) ≡ true
unfolding forget_cancel_sent
forget-is_due g h =
    let m : Fields = g.internal_diagnostics_json in
    let e : truthy (get_or "cancel_sent" (remove "cancel_sent" m) null) ≡ false =
      ap (λ o. truthy (value_or_null o)) (get-remove "cancel_sent" "cancel_sent" m) in
    rw (h, e) refl

try-not_due : (taken : Bool) (g : Generation) → is_due g ≡ false → try_cancel taken g ≡ (g, false)
unfolding try_cancel ensure_cancel_sent
try-not_due taken g h = rw h refl

try-taken : (g : Generation) → is_due g ≡ true → try_cancel true g ≡ (mark_sent g, true)
unfolding try_cancel ensure_cancel_sent
try-taken g h = rw h refl

try-refused :
    (g : Generation)
    → is_due g ≡ true
    → try_cancel false g ≡ (forget_cancel_sent (mark_sent g), false)
unfolding try_cancel ensure_cancel_sent
try-refused g h = rw h refl

unsent :
    (rest : List Bool) (h : Generation)
    → is_due h ≡ false
    → times_sent rest h ≡ (if is_due h && any (λ t. t) rest then 1 else 0)
    → times_sent rest h ≡ 0
unsent rest h e p = p ∙ rw e refl

-- However often `_ensure_cancel_sent` is called, it sends once if the cancellation is due at first and
-- the runtime takes some message, and never otherwise.
pub times_sent_lem :
    (taken : List Bool) (g : Generation)
    → times_sent taken g ≡ (if is_due g && any (λ t. t) taken then 1 else 0)
unfolding times_sent
times_sent_lem [] g = ground arith
times_sent_lem (taken ∷ rest) g = elim (Bool-cases (is_due g)) [
  | inl e ↦ due taken e (times_sent_lem rest)
  | inr e ↦ rw (try-not_due taken g e, e) (times_sent_lem rest g ∙ rw e refl)
]
  where
    due :
        (taken : Bool)
        → is_due g ≡ true
        → ((h : Generation) → times_sent rest h ≡ (if is_due h && any (λ t. t) rest then 1 else 0))
        → times_sent (taken ∷ rest) g ≡ (if is_due g && any (λ t. t) (taken ∷ rest) then 1 else 0)
    due true e ih =
        rw (try-taken g e, e)
          (omega (arith, unsent rest (mark_sent g) (mark_sent-not_due g) (ih (mark_sent g))))
    due false e ih =
        rw (try-refused g e, e)
          (ih (forget_cancel_sent (mark_sent g))
            ∙ rw (forget-is_due (mark_sent g) (ground arith)) refl)

-- The messages that the runtime takes from the submission of a prompt on: one of the submission, which
-- is taken or not, and those of the calls of `_ensure_cancel_sent` after it.
unfoldable pub worker_sends : (ℕ → String) → ℕ → String → Bool → List Bool → Generation → ℕ
unfolding times_sent submit_and_mark_running
worker_sends isoformat now prompt_id first taken g =
    let sent = submit_and_mark_running isoformat now prompt_id g in
    (if sent.1 && first then 1 else 0) + times_sent taken sent.0.0

submitted-is_due :
    (isoformat : ℕ → String) (now : ℕ) (prompt_id : String) (g : Generation)
    → is_due (submit_and_mark_running isoformat now prompt_id g).0.0 ≡ is_due g
unfolding submit_and_mark_running
submitted-is_due isoformat now prompt_id g = ground arith

cancels :
    (isoformat : ℕ → String) (now : ℕ) (prompt_id : String) (g : Generation)
    → (submit_and_mark_running isoformat now prompt_id g).1 ≡ status_eq g.status cancel_requested
unfolding submit_and_mark_running
cancels isoformat now prompt_id g = elim (Bool-cases (status_eq g.status cancel_requested)) [
  | inl e ↦ rw (submit_and_mark_running, e) refl
  | inr e ↦ rw (submit_and_mark_running, e) refl
]

-- While nothing but the worker's own sending writes to the row, the runtime gets no cancellation of a
-- prompt whose generation was not cancelled before its submission. Otherwise it gets the one of the
-- submission, if it takes it; and besides, where the row was not marked as sent, exactly one more if it
-- takes any later message, although the first was taken: then it is cancelled twice.
pub worker_sends_lem :
    (isoformat : ℕ → String) (now : ℕ) (prompt_id : String) (first : Bool) (taken : List Bool)
    (g : Generation)
    → worker_sends isoformat now prompt_id first taken g
      ≡ (if status_eq g.status cancel_requested && first then 1 else 0)
        + (if is_due g && any (λ t. t) taken then 1 else 0)
unfolding worker_sends submit_and_mark_running
worker_sends_lem isoformat now prompt_id first taken g =
    let g' = (submit_and_mark_running isoformat now prompt_id g).0.0 in
    let later : times_sent taken g' ≡ (if is_due g && any (λ t. t) taken then 1 else 0) =
      times_sent_lem taken g'
      ∙ ap (λ (b : Bool). if b && any (λ t. t) taken then 1 else 0)
          (submitted-is_due isoformat now prompt_id g) in
    ap (λ (b : Bool). (if b && first then 1 else 0) + times_sent taken g')
      (cancels isoformat now prompt_id g)
    ∙ ap (λ n. (if status_eq g.status cancel_requested && first then 1 else 0) + n) later
