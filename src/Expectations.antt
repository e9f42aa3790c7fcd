-- ===== src/Expectations.antt =====
-- The scoring of an image against the expectations of a Creative Direction
-- (backend/app/domain/expectations.py): what a vision model answers is checked, and the weakest
-- expectation decides. `str()` of a value that is no text, and `int()` of a text, are parameters.
pub mod Answers
pub mod Best
pub mod Covered
pub mod Passed
pub mod Scored
pub mod Stored
pub mod Total
use Prim.Native.String.{◌++◌}
use comfyui_image_frontend.Prelude.{
  ℕ, zero, suc, ◌-◌, ◌/◌, ◌%◌, ◌^◌, String, Bool, true, false, not, ◌&&◌, ◌||◌, Option, none, some,
  List, [], ◌∷◌, ◌++◌ as append, map, any, all, filter, length, ◌==◌, ltb, leb, if◌then◌else◌,
}
use comfyui_image_frontend.Prelude.Int.{ℤ, pos, negsuc, leb_ℤ, ltb_ℤ}
use comfyui_image_frontend.Errors.{Checked, fault, fine, fault_if, and_then, or_fault}
use comfyui_image_frontend.Text.{len, strip, lstrip, rstrip, squeeze, take_text}
use comfyui_image_frontend.Json.{
  Double, finite, Value, null, bool, int, float, str, list, dict, nil, Values, Fields, end, field,
  items, from_items, get, get_or, truthy,
}

pub record ExpectationScore : Type 0 where
  pub expectation : String
  pub score : ℤ
  pub observation : String
  pub met : Bool

pub record Evaluation : Type 0 where
  pub results : List ExpectationScore
  pub summary : String
  pub threshold : ℤ

abbrev pub min_ℤ : ℤ → ℤ → ℤ
min_ℤ a b = if ltb_ℤ b a then b else a

-- `min(...)`, which raises on no result
unfoldable pub lowest : ℤ → List ExpectationScore → ℤ
lowest n [] = n
lowest n (r ∷ rs) = lowest (min_ℤ n r.score) rs

-- Evaluation.score
unfoldable pub weakest : List ExpectationScore → Option ℤ
unfolding lowest
weakest [] = none
weakest (r ∷ rs) = some (lowest r.score rs)

-- Evaluation.passed
abbrev pub passed : Evaluation → Bool
passed e = all (λ r. r.met) e.results

abbrev pub max_observation_length : ℕ
max_observation_length = 500

abbrev pub max_summary_length : ℕ
max_summary_length = 1000

-- _truncate
unfoldable pub truncated : ℕ → String → String
unfolding squeeze rstrip take_text
truncated maximum value =
    let text = squeeze value in
    if leb (len text) maximum then text else rstrip (take_text (maximum - 1) text) ++ "…"

abbrev pub score_result : ℤ → String → ℕ × String → ExpectationScore
score_result threshold expectation (score, observation) = record {
  expectation = expectation;
  score = pos score;
  observation = truncated max_observation_length observation;
  met = leb_ℤ threshold (pos score);
}

abbrev pub zip_scores : ℤ → List String → List (ℕ × String) → List ExpectationScore
zip_scores threshold [] scores = []
zip_scores threshold (e ∷ es) [] = []
zip_scores threshold (e ∷ es) (s ∷ scores) =
    score_result threshold e s ∷ zip_scores threshold es scores

-- score_results
unfoldable pub score_results : List String → List (ℕ × String) → ℤ → String → Checked Evaluation
unfolding truncated
score_results expectations scores threshold summary =
    fault_if (not (length expectations == length scores))
      "Every expectation needs exactly one score."
      (fine (record {
        results = zip_scores threshold expectations scores;
        summary = truncated max_summary_length summary;
        threshold = threshold;
      }))

-- A float that is a whole number from 0 on
abbrev whole : Double → Option ℕ
whole (finite (pos m) k) = if m % 2 ^ k == 0 then some (m / 2 ^ k) else none
whole _ = none

-- An integer from 0 to 100, or a float that is one
abbrev pub score_of : Value → Option ℕ
score_of (int (pos n)) = if leb n 100 then some n else none
score_of (float d) = elim (whole d) [ none ↦ none | some n ↦ if leb n 100 then some n else none ]
score_of _ = none

-- The number of an expectation, from 1 on
abbrev pub index_of : ℕ → Value → Option ℕ
index_of count (int (pos n)) = if leb 1 n && leb n count then some n else none
index_of count _ = none

abbrev pub text_of : Value → Option String
text_of (str s) = some s
text_of _ = none

-- What a result says of the expectation of this number
abbrev pub Answer : Type 0
Answer = ℕ × (ℕ × String)

abbrev pub answer : Option ℕ → Option ℕ → Option String → Checked Answer
answer none score observation = fault "result references an unknown expectation"
answer (some index) none observation = fault "score is not an integer from 0 to 100"
answer (some index) (some score) none = fault "observation is not text"
answer (some index) (some score) (some observation) = fine (index, (score, strip observation))

-- One round of the loop, before the answers so far are looked at
unfoldable pub read_result : ℕ → Value → Checked Answer
unfolding rstrip lstrip
read_result count (dict m) =
    answer (index_of count (get_or "expectation" m null)) (score_of (get_or "score" m null))
      (text_of (get_or "observation" m (str "")))
read_result count _ = fault "result is not an object"

abbrev pub answered : ℕ → List Answer → Bool
answered index seen = any (λ (a : Answer). a.0 == index) seen

abbrev pub remember : List Answer → Answer → Checked (List Answer)
remember seen a =
    fault_if (answered (a.0) seen) "an expectation was scored more than once"
      (fine (append seen (a ∷ [])))

-- The loop over the results
unfoldable pub read_results : ℕ → List Answer → List Value → Checked (List Answer)
unfolding read_result
read_results count seen [] = fine seen
read_results count seen (v ∷ vs) =
    and_then (read_result count v)
      λ a. and_then (remember seen a) λ seen'. read_results count seen' vs

-- `by_index[index]`
abbrev pub answer_at : ℕ → List Answer → Option (ℕ × String)
answer_at index [] = none
answer_at index ((i, s) ∷ rest) = if i == index then some s else answer_at index rest

-- `[by_index[index] for index in range(first, first + n)]`; a missing index is a KeyError.
unfoldable pub answers_from : ℕ → ℕ → List Answer → Checked (List (ℕ × String))
answers_from first zero seen = fine []
answers_from first (suc n) seen = elim (answer_at first seen) [
  | none ↦ fault "KeyError"
  | some s ↦ and_then (answers_from (suc first) n seen) λ ss. fine (s ∷ ss)
]

abbrev pub list_of : Value → Option (List Value)
list_of (list vs) = some (items vs)
list_of _ = none

-- The checks on the whole, and the scoring.
unfoldable pub conclude_validation : List String → ℤ → Fields → List Answer → Checked Evaluation
unfolding answers_from score_results rstrip lstrip
conclude_validation expectations threshold m seen =
    fault_if (not (length seen == length expectations)) "not every expectation was scored" (
      or_fault (text_of (get_or "summary" m (str ""))) "summary is not text" λ summary.
        and_then (answers_from 1 (length expectations) seen)
          λ scores. score_results expectations scores threshold (strip summary))

-- validate_evaluation
unfoldable pub validate_evaluation : Value → List String → ℤ → Checked Evaluation
unfolding read_results conclude_validation
validate_evaluation (dict m) expectations threshold =
    or_fault (list_of (get_or "results" m null)) "results is not a list" λ results.
      and_then (read_results (length expectations) [] results)
        λ seen. conclude_validation expectations threshold m seen
validate_evaluation _ expectations threshold = fault "response is not an object"

-- ExpectationScore.as_json
abbrev pub score_json : ExpectationScore → Value
score_json r = dict (
    field "expectation" (str r.expectation) (
      field "score" (int r.score)
        (field "observation" (str r.observation) (field "met" (bool r.met) end))))

-- Evaluation.as_json; `none` where it raises.
unfoldable pub as_json : Evaluation → Option Fields
unfolding weakest
as_json e = elim (weakest e.results) [
  | none ↦ none
  | some score ↦ some (
      field "results" (list (from_items (map score_json e.results))) (
        field "summary" (str e.summary) (
          field "threshold" (int e.threshold)
            (field "score" (int score) (field "passed" (bool (passed e)) end)))))
]

abbrev truncate : Double → Option ℤ
truncate (finite (pos m) k) = some (pos (m / 2 ^ k))
truncate (finite (negsuc m) k) = elim (suc m / 2 ^ k) [
  | zero ↦ some (pos 0)
  | suc n ↦ some (negsuc n)
]
truncate _ = none

module _ (print : Value → String) (parse : String → Option ℤ) where
  -- `str(value)`
  abbrev pub text_from : Value → String
  text_from (str s) = s
  text_from v = print v

  -- `int(value)`; `none` where it raises.
  abbrev pub int_from : Value → Option ℤ
  int_from (int n) = some n
  int_from (bool true) = some (pos 1)
  int_from (bool false) = some (pos 0)
  int_from (float d) = truncate d
  int_from (str s) = parse s
  int_from _ = none

  -- The scores among the stored results; what is no mapping is left out.
  unfoldable pub stored_scores : List Value → Option (List ExpectationScore)
  stored_scores [] = some []
  stored_scores (dict m ∷ vs) = elim (int_from (get_or "score" m (int (pos 0)))) [
    | none ↦ none
    | some score ↦ elim (stored_scores vs) [
      | none ↦ none
      | some rs ↦ some (
          record {
            expectation = text_from (get_or "expectation" m (str ""));
            score = score;
            observation = text_from (get_or "observation" m (str ""));
            met = truthy (get_or "met" m (bool false));
          }
          ∷ rs)
    ]
  ]
  stored_scores (_ ∷ vs) = stored_scores vs

  abbrev rebuilt : Fields → ℤ → List ExpectationScore → Option Evaluation
  rebuilt m threshold [] = none
  rebuilt m threshold (r ∷ rs) = some (record {
    results = r ∷ rs;
    summary = text_from (get_or "summary" m (str ""));
    threshold = threshold;
  })

  -- evaluation_from_json on a mapping
  unfoldable pub evaluation_from_fields : Fields → Checked (Option Evaluation)
  unfolding stored_scores
  evaluation_from_fields m = elim (list_of (get_or "results" m null)) [
    | none ↦ fine none
    | some results ↦ elim (int_from (get_or "threshold" m (int (pos 80)))) [
      | none ↦ fault "int"
      | some threshold ↦ elim (stored_scores results) [
        | none ↦ fault "int"
        | some rs ↦ fine (rebuilt m threshold rs)
      ]
    ]
  ]

  -- evaluation_from_json
  unfoldable pub evaluation_from_json : Value → Checked (Option Evaluation)
  unfolding evaluation_from_fields
  evaluation_from_json (dict m) = evaluation_from_fields m
  evaluation_from_json _ = fine none

-- An attempt's number, and its score
abbrev pub Attempt : Type 0
Attempt = ℤ × ℤ

-- `(score, number) >= (best[1], best[0])`
abbrev pub at_least : Attempt → Attempt → Bool
at_least (number, score) (best, best_score) =
    ltb_ℤ best_score score || leb_ℤ best_score score && leb_ℤ best number

unfoldable pub best_from : Attempt → List Attempt → Attempt
best_from best [] = best
best_from best (a ∷ rest) = best_from (if at_least a best then a else best) rest

-- best_attempt
unfoldable pub best_attempt : List Attempt → Option ℤ
unfolding best_from
best_attempt [] = none
best_attempt (a ∷ rest) = some (best_from a rest).0
