-- ===== src/Examples/Judging.antt =====
-- Images scored against expectations.
use comfyui_image_frontend.Prelude.{
  ◌≡◌, ◌≢◌, refl, String, true, false, none, some, List, [], ◌∷◌, ℕ,
}
use comfyui_image_frontend.Prelude.Int.{pos, leb_ℤ}
use comfyui_image_frontend.Errors.{fine, fault}
use comfyui_image_frontend.Json.{
  Value, Fields, int, str, float, finite, list, dict, nil, cons, field, end,
}
use comfyui_image_frontend.Expectations.{
  Evaluation, Attempt, weakest, passed, as_json, validate_evaluation, evaluation_from_json,
  best_attempt,
}
use comfyui_image_frontend.Expectations.Best.{Picked, best_attempt-Picked}
use comfyui_image_frontend.Expectations.Stored.{evaluation_from_json-as_json}
use comfyui_image_frontend.Expectations.Scored.{IsScored, validate_evaluation-IsScored}
use comfyui_image_frontend.Expectations.Passed.{passed-iff_weakest}
use comfyui_image_frontend.Expectations.Total.{validate_evaluation-no_key_error}

abbrev result : ℕ → Value → String → Value
result index score observation = dict (
    field "expectation" (int (pos index))
      (field "score" score (field "observation" (str observation) end)))

-- The results come in another order than the expectations, one score as a float.
abbrev response : Fields
response =
    field "results"
      (list (
        cons (result 2 (float (finite (pos 180) 1)) " blue  sky ")
          (cons (result 1 (int (pos 70)) "") nil)))
      (field "summary" (str "Nearly") end)

abbrev expectations : List String
expectations = "a red car" ∷ "a blue sky" ∷ []

abbrev evaluation : Evaluation
evaluation = record {
  results =
      record { expectation = "a red car"; score = pos 70; observation = ""; met = false }
      ∷ record { expectation = "a blue sky"; score = pos 90; observation = "blue sky"; met = true }
      ∷ [];
  summary = "Nearly";
  threshold = pos 80;
}

validated : validate_evaluation (dict response) expectations (pos 80) ≡ fine evaluation
unfolding validate_evaluation
validated = refl

validate_evaluation-IsScored_example :
    (m : Fields) × (dict response ≡ dict m) × IsScored m expectations (pos 80) evaluation
validate_evaluation-IsScored_example =
    validate_evaluation-IsScored (dict response) expectations (pos 80) evaluation validated

passed-iff_weakest_example : passed evaluation ≡ leb_ℤ (pos 80) (pos 70)
unfolding weakest
passed-iff_weakest_example =
    passed-iff_weakest (dict response) expectations (pos 80) evaluation (pos 70) validated refl

validate_evaluation-no_key_error_example :
    validate_evaluation (dict end) expectations (pos 80) ≢ fault "KeyError"
validate_evaluation-no_key_error_example =
    validate_evaluation-no_key_error (dict end) expectations (pos 80)

abbrev stored : Fields
stored =
    field "results"
      (list (
        cons
          (dict (
            field "expectation" (str "a red car") (
              field "score" (int (pos 70))
                (field "observation" (str "") (field "met" (Value.bool false) end)))))
          (cons
            (dict (
              field "expectation" (str "a blue sky") (
                field "score" (int (pos 90))
                  (field "observation" (str "blue sky") (field "met" (Value.bool true) end)))))
            nil)))
      (field "summary" (str "Nearly") (
        field "threshold" (int (pos 80))
          (field "score" (int (pos 70)) (field "passed" (Value.bool false) end))))

evaluation_from_json-as_json_example :
    evaluation_from_json (λ v. "?") (λ t. none) (dict stored) ≡ fine (some evaluation)
unfolding as_json
evaluation_from_json-as_json_example =
    evaluation_from_json-as_json (λ v. "?") (λ t. none) evaluation stored refl

abbrev attempts : List Attempt
attempts = (pos 1, pos 70) ∷ (pos 2, pos 85) ∷ (pos 3, pos 85) ∷ []

best_attempt-Picked_example : Picked attempts (some (pos 3))
unfolding best_attempt
best_attempt-Picked_example = best_attempt-Picked attempts
