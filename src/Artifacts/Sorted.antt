-- ===== src/Artifacts/Sorted.antt =====
-- Sorting keeps the members of a list.
use mathlib.Core.List.{Memᴰ}
use comfyui_image_frontend.Prelude.{Bool, List, [], ◌∷◌, Bool-cases, inl, inr}
use comfyui_image_frontend.Artifacts.{insert_sorted, sort}

module _ {ℓ} {A : Type ℓ} (le : A → A → Bool) where
  pub Memᴰ-of_insert : (a x : A) (ys : List A) → Memᴰ a (insert_sorted le x ys) → Memᴰ a (x ∷ ys)
  unfolding insert_sorted
  Memᴰ-of_insert a x [] m = m
  Memᴰ-of_insert a x (y ∷ ys) m = elim (Bool-cases (le x y)) [
    | inl e ↦ rw e at m
    | inr e ↦ later (rw e at m) (Memᴰ-of_insert a x ys)
  ]
    where
      swap : Memᴰ a (x ∷ ys) → Memᴰ a (x ∷ y ∷ ys)
      swap (Memᴰ.head q) = Memᴰ.head q
      swap (Memᴰ.tail n) = Memᴰ.tail (Memᴰ.tail n)

      later :
          Memᴰ a (y ∷ insert_sorted le x ys)
          → (Memᴰ a (insert_sorted le x ys) → Memᴰ a (x ∷ ys))
          → Memᴰ a (x ∷ y ∷ ys)
      later (Memᴰ.head q) ih = Memᴰ.tail (Memᴰ.head q)
      later (Memᴰ.tail n) ih = swap (ih n)

  Memᴰ-insert : (a x : A) (ys : List A) → Memᴰ a (x ∷ ys) → Memᴰ a (insert_sorted le x ys)
  unfolding insert_sorted
  Memᴰ-insert a x [] m = m
  Memᴰ-insert a x (y ∷ ys) m = elim (Bool-cases (le x y)) [
    | inl e ↦ rw e m
    | inr e ↦ rw e (later m (Memᴰ-insert a x ys))
  ]
    where
      later :
          Memᴰ a (x ∷ y ∷ ys)
          → (Memᴰ a (x ∷ ys) → Memᴰ a (insert_sorted le x ys))
          → Memᴰ a (y ∷ insert_sorted le x ys)
      later (Memᴰ.head q) ih = Memᴰ.tail (ih (Memᴰ.head q))
      later (Memᴰ.tail (Memᴰ.head q)) ih = Memᴰ.head q
      later (Memᴰ.tail (Memᴰ.tail n)) ih = Memᴰ.tail (ih (Memᴰ.tail n))

  pub Memᴰ-of_sort : (a : A) (xs : List A) → Memᴰ a (sort le xs) → Memᴰ a xs
  unfolding sort
  Memᴰ-of_sort a [] m = m
  Memᴰ-of_sort a (x ∷ xs) m = further (Memᴰ-of_insert a x (sort le xs) m) (Memᴰ-of_sort a xs)
    where
      further : Memᴰ a (x ∷ sort le xs) → (Memᴰ a (sort le xs) → Memᴰ a xs) → Memᴰ a (x ∷ xs)
      further (Memᴰ.head q) ih = Memᴰ.head q
      further (Memᴰ.tail n) ih = Memᴰ.tail (ih n)

  pub Memᴰ-sort : (a : A) (xs : List A) → Memᴰ a xs → Memᴰ a (sort le xs)
  unfolding sort
  Memᴰ-sort a [] m = m
  Memᴰ-sort a (x ∷ xs) (Memᴰ.head q) = Memᴰ-insert a x (sort le xs) (Memᴰ.head q)
  Memᴰ-sort a (x ∷ xs) (Memᴰ.tail n) = Memᴰ-insert a x (sort le xs) (Memᴰ.tail (Memᴰ-sort a xs n))
