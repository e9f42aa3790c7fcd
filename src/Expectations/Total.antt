-- ===== src/Expectations/Total.antt =====
-- The lookup of an expectation's answer never fails.
use comfyui_image_frontend.Prelude.{
  ℕ, ◌≡◌, ◌≢◌, refl, ap, String, Bool, true, false, not, Option, none, some, List, [], ◌∷◌, length,
  arith, str_eq, ◌==◌,
}
use comfyui_image_frontend.Prelude.Int.{ℤ}
use comfyui_image_frontend.Errors.{Checked, fault, fine, fault_if, and_then, or_fault}
use comfyui_image_frontend.Json.{Value, Fields, null, bool, int, float, str, list, dict, get_or}
use comfyui_image_frontend.Expectations.{
  Answer, index_of, score_of, text_of, list_of, answer, read_result, answered, remember,
  read_results, answers_from, score_results, conclude_validation, validate_evaluation,
}
use comfyui_image_frontend.Expectations.Answers.{AreAnswers, read_results-AreAnswers}
use comfyui_image_frontend.Expectations.Scored.{covered}

abbrev is_key_error {ℓ} : {A : Type ℓ} → Checked A → Bool
is_key_error (fault message) = str_eq message "KeyError"
is_key_error (fine a) = false

-- Where the first part cannot fail so, and what follows it cannot either.
and_then-no_key_error {ℓ κ} :
    {A : Type ℓ} {B : Type κ} (r : Checked A) (next : A → Checked B)
    → is_key_error r ≡ false
    → ((a : A) → r ≡ fine a → is_key_error (next a) ≡ false)
    → is_key_error (and_then r next) ≡ false
and_then-no_key_error (fault message) next h k = h
and_then-no_key_error (fine a) next h k = k a refl

or_fault-no_key_error {ℓ κ} :
    {A : Type ℓ} {B : Type κ} (o : Option A) (message : String) (next : A → Checked B)
    → str_eq message "KeyError" ≡ false
    → ((a : A) → is_key_error (next a) ≡ false)
    → is_key_error (or_fault o message next) ≡ false
or_fault-no_key_error none message next h k = h
or_fault-no_key_error (some a) message next h k = k a

fault_if-no_key_error {ℓ} :
    {A : Type ℓ} (bad : Bool) (message : String) (rest : Checked A)
    → str_eq message "KeyError" ≡ false
    → (bad ≡ false → is_key_error rest ≡ false)
    → is_key_error (fault_if bad message rest) ≡ false
fault_if-no_key_error true message rest h k = h
fault_if-no_key_error false message rest h k = k refl

answer-no_key_error : (i n : Option ℕ) (o : Option String) → is_key_error (answer i n o) ≡ false
answer-no_key_error none n o = refl
answer-no_key_error (some i) none o = refl
answer-no_key_error (some i) (some n) none = refl
answer-no_key_error (some i) (some n) (some o) = refl

read_result-no_key_error : (count : ℕ) (v : Value) → is_key_error (read_result count v) ≡ false
unfolding read_result
read_result-no_key_error count (dict m) =
    answer-no_key_error (index_of count (get_or "expectation" m null))
      (score_of (get_or "score" m null)) (text_of (get_or "observation" m (str "")))
read_result-no_key_error count _ = refl

read_results-no_key_error :
    (count : ℕ) (seen : List Answer) (vs : List Value)
    → is_key_error (read_results count seen vs) ≡ false
unfolding read_results
read_results-no_key_error count seen [] = refl
read_results-no_key_error count seen (v ∷ vs) =
    and_then-no_key_error (read_result count v) _ (read_result-no_key_error count v) λ a e.
      and_then-no_key_error (remember seen a) _
        (fault_if-no_key_error (answered (a.0) seen) _ _ refl (λ e. refl))
        (λ seen' e'. read_results-no_key_error count seen' vs)

conclude-no_key_error :
    (m : Fields) (results : List Value) (expectations : List String) (threshold : ℤ)
    (seen : List Answer)
    → AreAnswers (length expectations) results seen
    → is_key_error (conclude_validation expectations threshold m seen) ≡ false
unfolding conclude_validation score_results
conclude-no_key_error m results expectations threshold seen inv =
    let n : ℕ = length expectations in
    fault_if-no_key_error (not (length seen == n)) _ _ refl λ l.
      or_fault-no_key_error (text_of (get_or "summary" m (str ""))) _ _ refl λ summary.
        and_then-no_key_error (answers_from 1 n seen) _ (read l)
          λ scores e. fault_if-no_key_error (not (n == length scores)) _ _ refl (λ e. refl)
  where
    read :
        not (length seen == length expectations) ≡ false
        → is_key_error (answers_from 1 (length expectations) seen) ≡ false
    read l =
        let (ss, o) = covered (length expectations) results seen inv (ground arith) in
        ap is_key_error o.read

validate-no_key_error :
    (m : Fields) (expectations : List String) (threshold : ℤ)
    → is_key_error (validate_evaluation (dict m) expectations threshold) ≡ false
unfolding validate_evaluation
validate-no_key_error m expectations threshold =
    let n : ℕ = length expectations in
    or_fault-no_key_error (list_of (get_or "results" m null)) _ _ refl λ results.
      and_then-no_key_error (read_results n [] results) _ (read_results-no_key_error n [] results)
        λ seen q. conclude-no_key_error m results expectations threshold seen (
          read_results-AreAnswers n results [] results seen (λ v k. k)
            (record { given = tt; once = tt }) q)

-- Checking a response never fails at the lookup of an expectation's answer: a response that lacks the
-- answer to an expectation is refused before.
pub validate_evaluation-no_key_error :
    (raw : Value) (expectations : List String) (threshold : ℤ)
    → validate_evaluation raw expectations threshold ≢ fault "KeyError"
unfolding validate_evaluation
validate_evaluation-no_key_error (dict m) expectations threshold h =
    cc (validate-no_key_error m expectations threshold, ap is_key_error h)
validate_evaluation-no_key_error null expectations threshold h = cc (ap is_key_error h)
validate_evaluation-no_key_error (bool b) expectations threshold h = cc (ap is_key_error h)
validate_evaluation-no_key_error (int n) expectations threshold h = cc (ap is_key_error h)
validate_evaluation-no_key_error (float d) expectations threshold h = cc (ap is_key_error h)
validate_evaluation-no_key_error (str s) expectations threshold h = cc (ap is_key_error h)
validate_evaluation-no_key_error (list vs) expectations threshold h = cc (ap is_key_error h)
