-- ===== src/Expectations/Best.antt =====
-- Which attempt is the best one.
use mathlib.Core.List.{Memᴰ}
use comfyui_image_frontend.Prelude.{
  ◌≡◌, refl, sym, ◌⊎◌, inl, inr, true, false, Option, none, some, List, [], ◌∷◌, All, arith,
  Bool-cases, if◌then◌else◌,
}
use comfyui_image_frontend.Prelude.Members.{All-map}
use comfyui_image_frontend.Prelude.Int.{ℤ, pos, negsuc, ltb_ℤ, leb_ℤ}
use comfyui_image_frontend.Expectations.{Attempt, at_least, best_from, best_attempt}

at_least_refl : (a : Attempt) → at_least a a ≡ true
at_least_refl (n, s) = ground arith

at_least_total : (a b : Attempt) → at_least a b ≡ false → at_least b a ≡ true
at_least_total (n, s) (m, t) h = ground arith

at_least_trans : (a b c : Attempt) → at_least a b ≡ true → at_least b c ≡ true → at_least a c ≡ true
at_least_trans (n, s) (m, t) (k, u) h h' = ground arith

better : Attempt → Attempt → Attempt
better best a = if at_least a best then a else best

better-left : (best a : Attempt) → at_least (better best a) best ≡ true
unfolding better
better-left best a = elim (Bool-cases (at_least a best)) [
  | inl e ↦ rw e e
  | inr e ↦ rw e (at_least_refl best)
]

better-right : (best a : Attempt) → at_least (better best a) a ≡ true
unfolding better
better-right best a = elim (Bool-cases (at_least a best)) [
  | inl e ↦ rw e (at_least_refl a)
  | inr e ↦ rw e (at_least_total a best e)
]

best_from-first :
    (best : Attempt) (rest : List Attempt) → at_least (best_from best rest) best ≡ true
unfolding best_from better
best_from-first best [] = at_least_refl best
best_from-first best (a ∷ rest) =
    at_least_trans (best_from best (a ∷ rest)) (better best a) best
      (best_from-first (better best a) rest) (better-left best a)

best_from-rest :
    (best : Attempt) (rest : List Attempt) → All (λ a. at_least (best_from best rest) a ≡ true) rest
unfolding best_from better
best_from-rest best [] = tt
best_from-rest best (a ∷ rest) = (
  at_least_trans (best_from best (a ∷ rest)) (better best a) a
      (best_from-first (better best a) rest) (better-right best a),
  best_from-rest (better best a) rest,
)

best_from-member : (best : Attempt) (rest : List Attempt) → Memᴰ (best_from best rest) (best ∷ rest)
unfolding best_from
best_from-member best [] = Memᴰ.head refl
best_from-member best (a ∷ rest) = elim (Bool-cases (at_least a best)) [
  | inl e ↦ rw e (Memᴰ.tail (best_from-member a rest))
  | inr e ↦ rw e (over (best_from-member best rest))
]
  where
    over : {c : Attempt} → Memᴰ c (best ∷ rest) → Memᴰ c (best ∷ a ∷ rest)
    over (Memᴰ.head e) = Memᴰ.head e
    over (Memᴰ.tail m) = Memᴰ.tail (Memᴰ.tail m)

-- An attempt with a lower score, or with the same score and no later number
abbrev pub NoBetter : Attempt → Attempt → Type 0
NoBetter (number, score) (n, s) = (ltb_ℤ s score ≡ true) ⊎ ((s ≡ score) × (leb_ℤ n number ≡ true))

abbrev pub Picked : List Attempt → Option ℤ → Type 0
Picked attempts none = attempts ≡ []
Picked attempts (some number) =
    (score : ℤ) × Memᴰ (number, score) attempts × All (NoBetter (number, score)) attempts

leb_ℤ_antisym : (a b : ℤ) → leb_ℤ a b ≡ true → ltb_ℤ a b ≡ false → b ≡ a
leb_ℤ_antisym (pos m) (pos n) h k = ground arith
leb_ℤ_antisym (pos m) (negsuc n) h k = ground arith
leb_ℤ_antisym (negsuc m) (pos n) h k = ground arith
leb_ℤ_antisym (negsuc m) (negsuc n) h k = ground arith

NoBetter-at_least : (a b : Attempt) → at_least a b ≡ true → NoBetter a b
NoBetter-at_least (n, s) (m, t) h = elim (Bool-cases (ltb_ℤ t s)) [
  | inl e ↦ inl e
  | inr e ↦ inr (sym (leb_ℤ_antisym t s (ground arith) e), ground arith)
]

-- The best attempt is one of the attempts, and every attempt has a lower score, or the same score
-- and no later number; there is none exactly where there is no attempt.
pub best_attempt-Picked : (attempts : List Attempt) → Picked attempts (best_attempt attempts)
unfolding best_attempt
best_attempt-Picked [] = refl
best_attempt-Picked (a ∷ rest) = (
  (best_from a rest).1,
  best_from-member a rest,
  All-map {P = λ b. at_least (best_from a rest) b ≡ true} {Q = NoBetter (best_from a rest)}
      (a ∷ rest) (NoBetter-at_least (best_from a rest))
      (best_from-first a rest, best_from-rest a rest),
)
