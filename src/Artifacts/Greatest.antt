-- ===== src/Artifacts/Greatest.antt =====
-- The first of the greatest is among the artifacts, and no key passes its own.
use mathlib.Core.List.{Memᴰ}
use comfyui_image_frontend.Prelude.{
  ℕ, ◌≡◌, refl, true, false, inl, inr, List, [], ◌∷◌, All, arith, Bool-cases, if◌then◌else◌,
}
use comfyui_image_frontend.Database.{Artifact}
use comfyui_image_frontend.Artifacts.{lex_lt, max_from}

pub lex_lt_irrefl : (xs : List ℕ) → lex_lt xs xs ≡ false
unfolding lex_lt
lex_lt_irrefl [] = refl
lex_lt_irrefl (x ∷ xs) = ground (arith, lex_lt_irrefl xs)

-- "Not less" is transitive.
pub lex_le_trans :
    (xs ys zs : List ℕ) → lex_lt ys xs ≡ false → lex_lt zs ys ≡ false → lex_lt zs xs ≡ false
unfolding lex_lt
lex_le_trans [] [] [] p q = refl
lex_le_trans [] [] (z ∷ zs) p q = q
lex_le_trans [] (y ∷ ys) [] p q = refl
lex_le_trans [] (y ∷ ys) (z ∷ zs) p q = refl
lex_le_trans (x ∷ xs) [] [] p q = cc
lex_le_trans (x ∷ xs) (y ∷ ys) [] p q = cc
lex_le_trans (x ∷ xs) [] (z ∷ zs) p q = cc
lex_le_trans (x ∷ xs) (y ∷ ys) (z ∷ zs) p q = ground (arith, lex_le_trans xs ys zs)

pub lex_lt_asym : (xs ys : List ℕ) → lex_lt xs ys ≡ true → lex_lt ys xs ≡ false
unfolding lex_lt
lex_lt_asym [] [] p = cc
lex_lt_asym [] (y ∷ ys) p = refl
lex_lt_asym (x ∷ xs) [] p = cc
lex_lt_asym (x ∷ xs) (y ∷ ys) p = ground (arith, lex_lt_asym xs ys)

module _ (key : Artifact → List ℕ) where
  abbrev pub NotAbove : Artifact → Artifact → Type 0
  NotAbove b a = lex_lt (key b) (key a) ≡ false

  better : Artifact → Artifact → Artifact
  better b a = if lex_lt (key b) (key a) then a else b

  NotAbove-better_left : (b a : Artifact) → NotAbove (better b a) b
  unfolding better
  NotAbove-better_left b a = ground (arith, lex_lt_irrefl (key b), lex_lt_asym (key b) (key a))

  NotAbove-better_right : (b a : Artifact) → NotAbove (better b a) a
  unfolding better
  NotAbove-better_right b a = ground (arith, lex_lt_irrefl (key a))

  NotAbove-trans : (c b a : Artifact) → NotAbove c b → NotAbove b a → NotAbove c a
  NotAbove-trans c b a p q = lex_le_trans (key a) (key b) (key c) q p

  pub max_from-first : (b : Artifact) (rest : List Artifact) → NotAbove (max_from key b rest) b
  unfolding max_from better
  max_from-first b [] = lex_lt_irrefl (key b)
  max_from-first b (a ∷ rest) =
      NotAbove-trans (max_from key b (a ∷ rest)) (better b a) b (max_from-first (better b a) rest)
        (NotAbove-better_left b a)

  pub max_from-rest :
      (b : Artifact) (rest : List Artifact) → All (NotAbove (max_from key b rest)) rest
  unfolding max_from better
  max_from-rest b [] = tt
  max_from-rest b (a ∷ rest) = (
    NotAbove-trans (max_from key b (a ∷ rest)) (better b a) a (max_from-first (better b a) rest)
        (NotAbove-better_right b a),
    max_from-rest (better b a) rest,
  )

  pub max_from-member :
      (b : Artifact) (rest : List Artifact) → Memᴰ (max_from key b rest) (b ∷ rest)
  unfolding max_from
  max_from-member b [] = Memᴰ.head refl
  max_from-member b (a ∷ rest) = elim (Bool-cases (lex_lt (key b) (key a))) [
    | inl e ↦ rw e (Memᴰ.tail (max_from-member a rest))
    | inr e ↦ rw e (over (max_from-member b rest))
  ]
    where
      over : {c : Artifact} → Memᴰ c (b ∷ rest) → Memᴰ c (b ∷ a ∷ rest)
      over (Memᴰ.head e) = Memᴰ.head e
      over (Memᴰ.tail m) = Memᴰ.tail (Memᴰ.tail m)
