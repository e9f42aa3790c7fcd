-- ===== src/Expectations/Passed.antt =====
-- When an evaluation passes.
use comfyui_image_frontend.Prelude.{
  ℕ, suc, ◌≡◌, refl, sym, ap, ◌∙◌, String, ◌&&◌, none, some, List, [], ◌∷◌, All, all, arith,
  some_inj, get_elem?,
}
use comfyui_image_frontend.Prelude.Int.{ℤ, leb_ℤ}
use comfyui_image_frontend.Errors.{fine}
use comfyui_image_frontend.Json.{Value}
use comfyui_image_frontend.Expectations.{
  ExpectationScore, Evaluation, min_ℤ, lowest, weakest, passed, validate_evaluation,
}
use comfyui_image_frontend.Expectations.Scored.{validate_evaluation-IsScored}

All-of_get :
    {A : Type 0} (P : A → Type 0) (xs : List A)
    → ((i : ℕ) (a : A) → get_elem? xs i ≡ some a → P a)
    → All P xs
All-of_get P [] h = tt
All-of_get P (x ∷ xs) h = (h 0 x refl, All-of_get P xs (λ i a e. h (suc i) a e))

abbrev Judged : ℤ → ExpectationScore → Type 0
Judged t r = r.met ≡ leb_ℤ t r.score

leb-min : (t a b : ℤ) → leb_ℤ t (min_ℤ a b) ≡ (leb_ℤ t a && leb_ℤ t b)
leb-min t a b = ground arith

leb-lowest :
    (t n : ℤ) (rs : List ExpectationScore)
    → All (Judged t) rs
    → leb_ℤ t (lowest n rs) ≡ (leb_ℤ t n && all (λ r. r.met) rs)
unfolding lowest
leb-lowest t n [] j = ground arith
leb-lowest t n (r ∷ rs) j =
    leb-lowest t (min_ℤ n r.score) rs j.1 ∙ rw (leb-min t n r.score, j.0) (ground arith)

lowest-weakest :
    (r : ExpectationScore) (rs : List ExpectationScore) (w : ℤ)
    → weakest (r ∷ rs) ≡ some w
    → lowest r.score rs ≡ w
unfolding weakest
lowest-weakest r rs w h = some_inj h

no_weakest : {w : ℤ} → weakest [] ≡ some w → none ≡ some w
unfolding weakest
no_weakest h = h

-- An evaluation that is accepted passes exactly if its headline score, the weakest of its scores,
-- reaches the threshold.
pub passed-iff_weakest :
    (raw : Value) (expectations : List String) (threshold : ℤ) (e : Evaluation) (w : ℤ)
    → validate_evaluation raw expectations threshold ≡ fine e
    → weakest e.results ≡ some w
    → passed e ≡ leb_ℤ threshold w
passed-iff_weakest raw expectations threshold e w h k =
    let (m, _, s) = validate_evaluation-IsScored raw expectations threshold e h in
    judged e.results
      (All-of_get (Judged threshold) e.results
        λ i r g. let by = s.each i r g in by.met ∙ ap (leb_ℤ threshold) (sym by.score))
      k
  where
    judged :
        (rs : List ExpectationScore)
        → All (Judged threshold) rs
        → weakest rs ≡ some w
        → all (λ r. r.met) rs ≡ leb_ℤ threshold w
    judged [] j k = absurd (cc (no_weakest k))
    judged (r ∷ rs) j k =
        rw (j.0) (
          sym (leb-lowest threshold r.score rs j.1)
          ∙ ap (leb_ℤ threshold) (lowest-weakest r rs w k))
