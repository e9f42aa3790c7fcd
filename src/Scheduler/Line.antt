-- ===== src/Scheduler/Line.antt =====
-- The first of a line by rank.
use mathlib.Core.List.{Memᴰ}
use comfyui_image_frontend.Prelude.{
  ◌≡◌, refl, List, [], ◌∷◌, Option, none, some, Bool-cases, inl, inr, true, false, All, arith,
  if◌then◌else◌,
}
use comfyui_image_frontend.Scheduler.Claim.{Rank, rank_lt, first_from, first_by}

rank_lt_irrefl : (r : Rank) → rank_lt r r ≡ false
rank_lt_irrefl (false, n) = ground arith
rank_lt_irrefl (true, n) = ground arith

pub rank_lt_asym : (r s : Rank) → rank_lt r s ≡ true → rank_lt s r ≡ false
rank_lt_asym (false, n) (true, m) h = refl
rank_lt_asym (true, n) (false, m) h = cc
rank_lt_asym (false, n) (false, m) h = ground arith
rank_lt_asym (true, n) (true, m) h = ground arith

-- "Not before" is transitive.
pub rank_le_trans : (r s t : Rank) → rank_lt s r ≡ false → rank_lt t s ≡ false → rank_lt t r ≡ false
rank_le_trans (false, n) (false, m) (false, k) p q = ground arith
rank_le_trans (false, n) (false, m) (true, k) p q = refl
rank_le_trans (false, n) (true, m) (false, k) p q = cc
rank_le_trans (false, n) (true, m) (true, k) p q = refl
rank_le_trans (true, n) (false, m) (false, k) p q = cc
rank_le_trans (true, n) (false, m) (true, k) p q = cc
rank_le_trans (true, n) (true, m) (false, k) p q = cc
rank_le_trans (true, n) (true, m) (true, k) p q = ground arith

module _ {A : Type 0} (rank : A → Rank) where
  NotBefore : A → A → Type 0
  NotBefore b a = rank_lt (rank a) (rank b) ≡ false

  sooner : A → A → A
  sooner b a = if rank_lt (rank a) (rank b) then a else b

  sooner-left : (b a : A) → NotBefore (sooner b a) b
  unfolding sooner NotBefore
  sooner-left b a = elim (Bool-cases (rank_lt (rank a) (rank b))) [
    | inl e ↦ rw e (rank_lt_asym (rank a) (rank b) e)
    | inr e ↦ rw e (rank_lt_irrefl (rank b))
  ]

  sooner-right : (b a : A) → NotBefore (sooner b a) a
  unfolding sooner NotBefore
  sooner-right b a = elim (Bool-cases (rank_lt (rank a) (rank b))) [
    | inl e ↦ rw e (rank_lt_irrefl (rank a))
    | inr e ↦ rw (e, e) refl
  ]

  NotBefore-trans : (c b a : A) → NotBefore c b → NotBefore b a → NotBefore c a
  unfolding NotBefore
  NotBefore-trans c b a p q = rank_le_trans (rank c) (rank b) (rank a) p q

  first_from-first : (b : A) (rest : List A) → NotBefore (first_from rank b rest) b
  unfolding first_from sooner NotBefore
  first_from-first b [] = rank_lt_irrefl (rank b)
  first_from-first b (a ∷ rest) =
      NotBefore-trans (first_from rank b (a ∷ rest)) (sooner b a) b
        (first_from-first (sooner b a) rest) (sooner-left b a)

  first_from-rest : (b : A) (rest : List A) → All (NotBefore (first_from rank b rest)) rest
  unfolding first_from sooner NotBefore
  first_from-rest b [] = tt
  first_from-rest b (a ∷ rest) = (
    NotBefore-trans (first_from rank b (a ∷ rest)) (sooner b a) a
        (first_from-first (sooner b a) rest) (sooner-right b a),
    first_from-rest (sooner b a) rest,
  )

  first_from-member : (b : A) (rest : List A) → Memᴰ (first_from rank b rest) (b ∷ rest)
  unfolding first_from
  first_from-member b [] = Memᴰ.head refl
  first_from-member b (a ∷ rest) = elim (Bool-cases (rank_lt (rank a) (rank b))) [
    | inl e ↦ rw e (Memᴰ.tail (first_from-member a rest))
    | inr e ↦ rw e (over (first_from-member b rest))
  ]
    where
      over : {c : A} → Memᴰ c (b ∷ rest) → Memᴰ c (b ∷ a ∷ rest)
      over (Memᴰ.head q) = Memᴰ.head q
      over (Memᴰ.tail m) = Memᴰ.tail (Memᴰ.tail m)

  -- The first by rank, or nothing where there is none.
  abbrev pub IsFirst : List A → Option A → Type 0
  IsFirst xs none = xs ≡ []
  IsFirst xs (some b) = Memᴰ b xs × All (λ a. rank_lt (rank a) (rank b) ≡ false) xs

  pub first_by-IsFirst : (xs : List A) → IsFirst xs (first_by rank xs)
  unfolding first_by NotBefore
  first_by-IsFirst [] = refl
  first_by-IsFirst (b ∷ rest) =
      (first_from-member b rest, (first_from-first b rest, first_from-rest b rest))
