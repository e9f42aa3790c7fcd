-- ===== src/Expectations/Scored.antt =====
-- What a vision model's answer is checked for.
use mathlib.Core.List.{Memᴰ}
use comfyui_image_frontend.Prelude.{
  ℕ, zero, suc, ◌≤◌, ◌≡◌, refl, sym, ap, ◌∙◌, subst, inl, inr, String, not, some, List, [], ◌∷◌,
  map, length, arith, Bool-cases, some_inj, ◌==◌, get_elem?,
}
use comfyui_image_frontend.Prelude.Members.{All-at, All-map}
use comfyui_image_frontend.Prelude.Int.{ℤ, pos, leb_ℤ}
use comfyui_image_frontend.Errors.{fine, and_then-fine, fault_if-fine, fine_inj, or_fault-fine}
use comfyui_image_frontend.Json.{Value, Fields, null, bool, int, float, str, list, dict, get_or}
use comfyui_image_frontend.Expectations.{
  ExpectationScore, Evaluation, Answer, score_of, text_of, list_of, zip_scores, score_results,
  answer_at, answers_from, read_results, conclude_validation, validate_evaluation,
}
use comfyui_image_frontend.Expectations.Answers.{GivenBy, AreAnswers, read_results-AreAnswers}
use comfyui_image_frontend.Expectations.Covered.{answer_at-some, InOrder, answers_from-InOrder}

-- The answers that are collected cover the expectations.
pub covered :
    (n : ℕ) (results : List Value) (seen : List Answer)
    → AreAnswers n results seen
    → length seen ≡ n
    → (ss : List (ℕ × String)) × InOrder 1 n seen ss
covered n results seen inv l = answers_from-InOrder 1 n seen λ i a b.
    answer_at-some n seen i inv.once (All-map seen (λ a g. (g.positive, g.at_most)) inv.given) l a
      (omega arith)

zip-expectations :
    (threshold : ℤ) (es : List String) (ss : List (ℕ × String))
    → length es ≡ length ss
    → map (λ (r : ExpectationScore). r.expectation) (zip_scores threshold es ss) ≡ es
zip-expectations threshold [] ss h = refl
zip-expectations threshold (e ∷ es) [] h = cc
zip-expectations threshold (e ∷ es) (s ∷ ss) h =
    ap (λ (es : List String). e ∷ es) (zip-expectations threshold es ss (omega arith))

-- The result at a place comes from the answer at it.
zip-get :
    (threshold : ℤ) (es : List String) (ss : List (ℕ × String)) (i : ℕ) (r : ExpectationScore)
    → get_elem? (zip_scores threshold es ss) i ≡ some r
    → (s : ℕ × String) × (get_elem? ss i ≡ some s)
      × (r.score ≡ pos s.0)
      × (r.met ≡ leb_ℤ threshold (pos s.0))
zip-get threshold [] ss i r h = cc
zip-get threshold (e ∷ es) [] i r h = cc
zip-get threshold (e ∷ es) (s ∷ ss) zero r h = (
  s,
  refl,
  ap (λ (r : ExpectationScore). r.score) (sym (some_inj h)),
  ap (λ (r : ExpectationScore). r.met) (sym (some_inj h)),
)
zip-get threshold (e ∷ es) (s ∷ ss) (suc i) r h = zip-get threshold es ss i r h

answer-member :
    (i : ℕ) (s : ℕ × String) (seen : List Answer) → answer_at i seen ≡ some s → Memᴰ (i, s) seen
answer-member i s [] h = cc
answer-member i s ((j, t) ∷ seen) h = elim (Bool-cases (j == i)) [
  | inl e ↦
      let p : i ≡ j = ground arith in let q : s ≡ t = sym (some_inj (rw e at h)) in Memᴰ.head (cc)
  | inr e ↦ Memᴰ.tail (answer-member i s seen (rw e at h))
]

-- The expectation of this number has the score that one of the results gives to the number.
pub record IsScoredBy (results : List Value) (threshold : ℤ) (i : ℕ) (r : ExpectationScore)
    : Type 0 where
  pub mapping : Fields
  pub given : Memᴰ (dict mapping) results
  pub numbered : get_or "expectation" mapping null ≡ int (pos (suc i))
  pub points : ℕ
  pub scored : score_of (get_or "score" mapping null) ≡ some points
  pub score : r.score ≡ pos points
  pub hundred : points ≤ 100
  pub met : r.met ≡ leb_ℤ threshold (pos points)

pub record IsScored (m : Fields) (expectations : List String) (threshold : ℤ) (e : Evaluation)
    : Type 0 where
  pub results : List Value
  pub listed : list_of (get_or "results" m null) ≡ some results
  pub asked : map (λ (r : ExpectationScore). r.expectation) e.results ≡ expectations
  pub each :
      (i : ℕ) (r : ExpectationScore)
      → get_elem? e.results i ≡ some r
      → IsScoredBy results threshold i r
  pub limit : e.threshold ≡ threshold

conclude-each :
    (n : ℕ) (results : List Value) (threshold : ℤ) (es : List String) (seen : List Answer)
    (ss : List (ℕ × String))
    → AreAnswers n results seen
    → InOrder 1 n seen ss
    → (i : ℕ) (r : ExpectationScore) → get_elem? (zip_scores threshold es ss) i ≡ some r
    → IsScoredBy results threshold i r
conclude-each n results threshold es seen ss inv o i r h =
    let (s, p, q, k) = zip-get threshold es ss i r h in
    let g : GivenBy n results (suc i, s) =
      All-at (GivenBy n results) (suc i, s) seen inv.given
        (answer-member (suc i) s seen
          (subst (λ j. answer_at j seen ≡ some s) (omega arith) (o.each i s p))) in
    record {
      mapping = g.mapping;
      given = g.given;
      numbered = g.numbered;
      points = s.0;
      scored = g.scored;
      score = q;
      hundred = g.hundred;
      met = k;
    }

conclude-IsScored :
    (m : Fields) (results : List Value) (expectations : List String) (threshold : ℤ)
    (seen : List Answer) (e : Evaluation)
    → list_of (get_or "results" m null) ≡ some results
    → AreAnswers (length expectations) results seen
    → conclude_validation expectations threshold m seen ≡ fine e
    → IsScored m expectations threshold e
unfolding conclude_validation score_results
conclude-IsScored m results expectations threshold seen e listed inv h =
    let n : ℕ = length expectations in
    let (l, h1) = fault_if-fine (not (length seen == n)) _ _ h in
    let (summary, _, h2) = or_fault-fine (text_of (get_or "summary" m (str ""))) _ _ h1 in
    let (scores, r, h3) = and_then-fine (answers_from 1 n seen) _ h2 in
    let (l', h4) = fault_if-fine (not (n == length scores)) _ _ h3 in
    let (ss, o) = covered n results seen inv (ground arith) in
    let same : ss ≡ scores = fine_inj (sym (o.read) ∙ r) in
    subst (IsScored m expectations threshold) (fine_inj h4) (record {
      results = results;
      listed = listed;
      asked = zip-expectations threshold expectations scores (ground arith);
      each =
          conclude-each n results threshold expectations seen scores inv
            (subst (InOrder 1 n seen) same o);
      limit = refl;
    })

-- A response that is accepted is a mapping whose "results" are a list, and the evaluation follows it:
-- its results are about the expectations in their order; the score of each is a number up to 100 that
-- one of the listed results gives to the number of the expectation; an expectation is met exactly if
-- its score reaches the threshold, which is kept.
pub validate_evaluation-IsScored :
    (raw : Value) (expectations : List String) (threshold : ℤ) (e : Evaluation)
    → validate_evaluation raw expectations threshold ≡ fine e
    → (m : Fields) × (raw ≡ dict m) × IsScored m expectations threshold e
unfolding validate_evaluation
validate_evaluation-IsScored (dict m) expectations threshold e h =
    let (results, p, h1) = or_fault-fine (list_of (get_or "results" m null)) _ _ h in
    let (seen, q, h2) = and_then-fine (read_results (length expectations) [] results) _ h1 in
    let inv =
      read_results-AreAnswers (length expectations) results [] results seen (λ v n. n)
        (record { given = tt; once = tt }) q in
    (m, refl, conclude-IsScored m results expectations threshold seen e p inv h2)
validate_evaluation-IsScored null expectations threshold e h = cc
validate_evaluation-IsScored (bool b) expectations threshold e h = cc
validate_evaluation-IsScored (int n) expectations threshold e h = cc
validate_evaluation-IsScored (float d) expectations threshold e h = cc
validate_evaluation-IsScored (str s) expectations threshold e h = cc
validate_evaluation-IsScored (list vs) expectations threshold e h = cc
