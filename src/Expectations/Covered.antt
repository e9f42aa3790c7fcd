-- ===== src/Expectations/Covered.antt =====
-- As many answers as expectations, and none of them twice: every expectation has an answer.
use comfyui_image_frontend.Prelude.{
  ℕ, zero, suc, ◌+◌, ◌≤◌, ◌<◌, ◌≡◌, refl, ap, subst, inl, inr, String, false, not, none, some, List,
  [], ◌∷◌, filter, length, All, arith, Bool-cases, Option-cases, some_inj, ◌==◌, get_elem?,
}
use comfyui_image_frontend.Errors.{fine}
use comfyui_image_frontend.Expectations.{Answer, answered, answer_at, answers_from}
use comfyui_image_frontend.Expectations.Answers.{Apart}

abbrev Within : ℕ → List Answer → Type 0
Within n xs = All (λ (a : Answer). (1 ≤ a.0) × (a.0 ≤ n)) xs

abbrev without : ℕ → List Answer → List Answer
without k xs = filter (λ (a : Answer). not (a.0 == k)) xs

answered-without :
    (i k : ℕ) (xs : List Answer) → answered i xs ≡ false → answered i (without k xs) ≡ false
answered-without i k [] h = refl
answered-without i k ((j, s) ∷ xs) h = ground (arith, answered-without i k xs)

Apart-without : (k : ℕ) (xs : List Answer) → Apart xs → Apart (without k xs)
Apart-without k [] p = tt
Apart-without k ((j, s) ∷ xs) p = elim (Bool-cases (j == k)) [
  | inl e ↦ rw e (Apart-without k xs p.1)
  | inr e ↦ rw e (answered-without j k xs p.0, Apart-without k xs p.1)
]

length-without_absent :
    (k : ℕ) (xs : List Answer) → answered k xs ≡ false → length (without k xs) ≡ length xs
length-without_absent k [] h = refl
length-without_absent k ((j, s) ∷ xs) h = ground (arith, length-without_absent k xs)

length-without : (k : ℕ) (xs : List Answer) → Apart xs → length xs ≤ suc (length (without k xs))
length-without k [] p = omega arith
length-without k ((j, s) ∷ xs) p = ground (arith, length-without k xs, length-without_absent k xs)

Within-without : (n : ℕ) (xs : List Answer) → Within (suc n) xs → Within n (without (suc n) xs)
Within-without n [] w = tt
Within-without n ((j, s) ∷ xs) w = elim (Bool-cases (j == suc n)) [
  | inl e ↦ rw e (Within-without n xs w.1)
  | inr e ↦ rw e ((w.0.0, ground arith), Within-without n xs w.1)
]

-- There are no more answers than numbers.
length-le : (n : ℕ) (xs : List Answer) → Apart xs → Within n xs → length xs ≤ n
length-le zero [] p w = omega arith
length-le zero (x ∷ xs) p w = absurd (omega arith)
length-le (suc n) xs p w = omega (
  arith,
  length-without (suc n) xs p,
  length-le n (without (suc n) xs) (Apart-without (suc n) xs p) (Within-without n xs w),
)

unanswered : (i : ℕ) (xs : List Answer) → answer_at i xs ≡ none → answered i xs ≡ false
unanswered i [] h = refl
unanswered i ((j, s) ∷ xs) h = ground (arith, unanswered i xs)

-- Every number has its answer.
pub answer_at-some :
    (n : ℕ) (xs : List Answer) (i : ℕ)
    → Apart xs
    → Within n xs
    → length xs ≡ n
    → 1 ≤ i
    → i ≤ n
    → (s : ℕ × String) × (answer_at i xs ≡ some s)
answer_at-some n xs i p w l a b = elim (Option-cases (answer_at i xs)) [
  | inl e ↦
      absurd (omega (arith, length-le n ((i, (0, "")) ∷ xs) (unanswered i xs e, p) ((a, b), w)))
  | inr (s, e) ↦ (s, e)
]

-- The answers in the order of the expectations
pub record InOrder (first n : ℕ) (seen : List Answer) (ss : List (ℕ × String)) : Type 0 where
  pub read : answers_from first n seen ≡ fine ss
  pub count : length ss ≡ n
  pub each :
      (j : ℕ) (s : ℕ × String) → get_elem? ss j ≡ some s → answer_at (first + j) seen ≡ some s

InOrder-cons :
    (first n : ℕ) (seen : List Answer) (s : ℕ × String) (ss : List (ℕ × String))
    → answer_at first seen ≡ some s
    → InOrder (suc first) n seen ss
    → InOrder first (suc n) seen (s ∷ ss)
unfolding answers_from
InOrder-cons first n seen s ss e o = record {
  read = rw (e, o.read, answers_from) refl;
  count = ap suc o.count;
  each = each;
}
  where
    each :
        (j : ℕ) (t : ℕ × String)
        → get_elem? (s ∷ ss) j ≡ some t
        → answer_at (first + j) seen ≡ some t
    each zero t h =
        subst (λ t. answer_at (first + 0) seen ≡ some t) (some_inj h)
          (subst (λ k. answer_at k seen ≡ some s) (omega arith) e)
    each (suc j) t h = subst (λ k. answer_at k seen ≡ some t) (omega arith) (o.each j t h)

pub answers_from-InOrder :
    (first n : ℕ) (seen : List Answer)
    → ((i : ℕ) → first ≤ i → i < first + n → (s : ℕ × String) × (answer_at i seen ≡ some s))
    → (ss : List (ℕ × String)) × InOrder first n seen ss
unfolding answers_from
answers_from-InOrder first zero seen h =
    ([], record { read = refl; count = refl; each = λ j s e. cc })
answers_from-InOrder first (suc n) seen h =
    let (s, e) = h first (omega arith) (omega arith) in
    let (ss, o) =
      answers_from-InOrder (suc first) n seen (λ i a b. h i (omega arith) (omega arith)) in
    (s ∷ ss, InOrder-cons first n seen s ss e o)
