-- ===== src/Prelude/Members.antt =====
-- Membership of lists, and what `filter` and `map` do to it.
use Prim.Native.String.{String}
use mathlib.Core.Path.{◌≡◌, refl, sym, ap, subst, ◌∙◌}
use mathlib.Core.Logic.{inl, inr}
use mathlib.Core.Bool.{Bool, true}
use mathlib.Core.List.{List, [], ◌∷◌, map, Memᴰ}
use comfyui_image_frontend.Prelude.Tests.{Bool-cases}
use comfyui_image_frontend.Prelude.Lists.{filter, All}

-- No text occurs twice.
abbrev pub Once : List String → Type 0
Once [] = Unit
Once (x ∷ xs) = (¬ Memᴰ x xs) × Once xs

module _ {ℓ} {A : Type ℓ} (p : A → Bool) where
  pub Memᴰ-of_filter : (a : A) (xs : List A) → Memᴰ a (filter p xs) → Memᴰ a xs × (p a ≡ true)
  Memᴰ-of_filter a [] m = elim m [ ]
  Memᴰ-of_filter a (x ∷ xs) m = elim (Bool-cases (p x)) [
    | inl e ↦ kept e (rw e at m) (Memᴰ-of_filter a xs)
    | inr e ↦ let (n, q) = Memᴰ-of_filter a xs (rw e at m) in (Memᴰ.tail n, q)
  ]
    where
      kept :
          p x ≡ true
          → Memᴰ a (x ∷ filter p xs)
          → (Memᴰ a (filter p xs) → Memᴰ a xs × (p a ≡ true))
          → Memᴰ a (x ∷ xs) × (p a ≡ true)
      kept e (Memᴰ.head q) ih = (Memᴰ.head q, ap p q ∙ e)
      kept e (Memᴰ.tail n) ih = let (n', q) = ih n in (Memᴰ.tail n', q)

  pub Memᴰ-filter : (a : A) (xs : List A) → Memᴰ a xs → p a ≡ true → Memᴰ a (filter p xs)
  Memᴰ-filter a [] m h = elim m [ ]
  Memᴰ-filter a (x ∷ xs) (Memᴰ.head q) h =
      let e : p x ≡ true = ap p (sym q) ∙ h in rw e (Memᴰ.head q)
  Memᴰ-filter a (x ∷ xs) (Memᴰ.tail m) h = elim (Bool-cases (p x)) [
    | inl e ↦ rw e (Memᴰ.tail (Memᴰ-filter a xs m h))
    | inr e ↦ rw e (Memᴰ-filter a xs m h)
  ]

module _ {ℓ κ} {A : Type ℓ} (P : A → Type κ) where
  pub All-intro : (xs : List A) → ((a : A) → Memᴰ a xs → P a) → All P xs
  All-intro [] h = tt
  All-intro (x ∷ xs) h = (h x (Memᴰ.head refl), All-intro xs (λ a m. h a (Memᴰ.tail m)))

  pub All-at : (a : A) (xs : List A) → All P xs → Memᴰ a xs → P a
  All-at a [] h m = elim m [ ]
  All-at a (x ∷ xs) h (Memᴰ.head q) = subst P (sym q) h.0
  All-at a (x ∷ xs) h (Memᴰ.tail m) = All-at a xs h.1 m

module _ {ℓ κ} {A : Type ℓ} {B : Type κ} (f : A → B) where
  pub Memᴰ-of_map : (b : B) (xs : List A) → Memᴰ b (map f xs) → (a : A) × Memᴰ a xs × (b ≡ f a)
  Memᴰ-of_map b [] m = elim m [ ]
  Memᴰ-of_map b (x ∷ xs) (Memᴰ.head q) = (x, Memᴰ.head refl, q)
  Memᴰ-of_map b (x ∷ xs) (Memᴰ.tail m) = let (a, n, q) = Memᴰ-of_map b xs m in (a, Memᴰ.tail n, q)

  pub Memᴰ-map : (a : A) (xs : List A) → Memᴰ a xs → Memᴰ (f a) (map f xs)
  Memᴰ-map a [] m = elim m [ ]
  Memᴰ-map a (x ∷ xs) (Memᴰ.head q) = Memᴰ.head (ap f q)
  Memᴰ-map a (x ∷ xs) (Memᴰ.tail m) = Memᴰ.tail (Memᴰ-map a xs m)

pub All-map {ℓ κ ι} :
    {A : Type ℓ} {P : A → Type κ} {Q : A → Type ι} (xs : List A)
    → ((a : A) → P a → Q a)
    → All P xs
    → All Q xs
All-map [] f h = tt
All-map (x ∷ xs) f h = (f x h.0, All-map xs f h.1)
