-- ===== src/Collections/Order.antt =====
-- What a reorder does: the listed folders take the places of the list.
use mathlib.Core.List.{Memᴰ}
use comfyui_image_frontend.Prelude.{
  ℕ, suc, ◌≡◌, refl, sym, ◌∙◌, subst, ap, ◌⊎◌, inl, inr, String, Bool, true, false, not, Option,
  some, List, [], ◌∷◌, map, any, filter, length, index?, str_eq, str_eq_iff, Bool-cases, arith,
  if◌then◌else◌,
}
use comfyui_image_frontend.Prelude.Members.{Once, Memᴰ-map, Memᴰ-filter}
use comfyui_image_frontend.Errors.{ok}
use comfyui_image_frontend.Collections.{Collection, is_sibling, place, reorder}

-- A list without one occurrence of a text.
abbrev without : String → List String → List String
without x [] = []
without x (y ∷ ys) = let rest = without x ys in if str_eq x y then ys else y ∷ rest

length-without :
    (x : String) (ys : List String) → Memᴰ x ys → length ys ≡ suc (length (without x ys))
length-without x [] m = elim m [ ]
length-without x (y ∷ ys) m = elim (Bool-cases (str_eq x y)) [
  | inl e ↦ rw e refl
  | inr e ↦ rw e (ap suc (later m e (length-without x ys)))
]
  where
    later :
        Memᴰ x (y ∷ ys)
        → str_eq x y ≡ false
        → (Memᴰ x ys → length ys ≡ suc (length (without x ys)))
        → length ys ≡ suc (length (without x ys))
    later (Memᴰ.head q) e ih = cc (e, (str_eq_iff x y).1 q)
    later (Memᴰ.tail n) e ih = ih n

Memᴰ-without :
    (x z : String) (ys : List String) → Memᴰ z ys → str_eq x z ≡ false → Memᴰ z (without x ys)
Memᴰ-without x z [] m e = elim m [ ]
Memᴰ-without x z (y ∷ ys) (Memᴰ.head q) e =
    let apart : str_eq x y ≡ false = ap (str_eq x) (sym q) ∙ e in rw apart (Memᴰ.head q)
Memᴰ-without x z (y ∷ ys) (Memᴰ.tail m) e = elim (Bool-cases (str_eq x y)) [
  | inl h ↦ rw h m
  | inr h ↦ rw h (Memᴰ.tail (Memᴰ-without x z ys m e))
]

-- As many different members as a list is long are all of its members.
all_listed :
    (xs ys : List String)
    → Once xs
    → ((x : String) → Memᴰ x xs → Memᴰ x ys)
    → length xs ≡ length ys
    → (z : String) → Memᴰ z ys
    → Memᴰ z xs
all_listed [] [] once sub e z m = m
all_listed [] (y ∷ ys) once sub e z m = absurd (omega (arith, e))
all_listed (x ∷ xs) ys (fresh, once) sub e z m = elim (Bool-cases (str_eq x z)) [
  | inl q ↦ Memᴰ.head (sym ((str_eq_iff x z).0 q))
  | inr q ↦ Memᴰ.tail (
      all_listed xs (without x ys) once
        (λ w n. Memᴰ-without x w ys (sub w (Memᴰ.tail n)) (apart w n (Bool-cases (str_eq x w))))
        (omega (arith, e, length-without x ys (sub x (Memᴰ.head refl)))) z
        (Memᴰ-without x z ys m q))
]
  where
    apart :
        (w : String) → Memᴰ w xs → (str_eq x w ≡ true) ⊎ (str_eq x w ≡ false) → str_eq x w ≡ false
    apart w n (inr h) = h
    apart w n (inl h) = absurd (fresh (subst (λ s. Memᴰ s xs) (sym ((str_eq_iff x w).0 h)) n))

any-false :
    {A : Type 0} (p : A → Bool) (a : A) (xs : List A) → any p xs ≡ false → Memᴰ a xs → p a ≡ false
any-false p a [] e m = elim m [ ]
any-false p a (x ∷ xs) e (Memᴰ.head q) = ap p q ∙ ground arith
any-false p a (x ∷ xs) e (Memᴰ.tail m) = any-false p a xs (ground arith) m

any-true :
    {A : Type 0} (p : A → Bool) (xs : List A) → any p xs ≡ true → (a : A) × Memᴰ a xs × (p a ≡ true)
any-true p [] e = cc
any-true p (x ∷ xs) e = elim (Bool-cases (p x)) [
  | inl h ↦ (x, Memᴰ.head refl, h)
  | inr h ↦ let (a, m, k) = any-true p xs (rw h at e) in (a, Memᴰ.tail m, k)
]

index-member : (z : String) (xs : List String) → Memᴰ z xs → (i : ℕ) × (index? z xs ≡ some i)
index-member z [] m = elim m [ ]
index-member z (x ∷ xs) m = elim (Bool-cases (str_eq x z)) [
  | inl h ↦ (0, rw h refl)
  | inr h ↦ let (i, e) = later m h (index-member z xs) in (suc i, rw (h, e) refl)
]
  where
    later :
        Memᴰ z (x ∷ xs)
        → str_eq x z ≡ false
        → (Memᴰ z xs → (i : ℕ) × (index? z xs ≡ some i))
        → (i : ℕ) × (index? z xs ≡ some i)
    later (Memᴰ.head q) h ih = cc (h, (str_eq_iff x z).1 (sym q))
    later (Memᴰ.tail n) h ih = ih n

length-map : {A B : Type 0} (f : A → B) (xs : List A) → length (map f xs) ≡ length xs
length-map f [] = refl
length-map f (x ∷ xs) = ap suc (length-map f xs)

abbrev siblings_of : List Collection → String → Option String → List Collection
siblings_of rows owner_id parent_id = filter (is_sibling owner_id parent_id) rows

abbrev ids_of : List Collection → List String
ids_of = map (λ c. c.id)

abbrev placed : String → Option String → List String → Collection → Collection
placed owner_id parent_id order c = if is_sibling owner_id parent_id c then place order c else c

reorder-inversion :
    (rows : List Collection) (owner_id : String) (parent_id : Option String) (order : List String)
    {after : List Collection}
    → reorder rows owner_id parent_id order ≡ ok after
    → (length order ≡ length (siblings_of rows owner_id parent_id))
      × (any
            (λ i.
              not (any (λ (c : Collection). str_eq i c.id) (siblings_of rows owner_id parent_id)))
            order
          ≡ false)
      × (after ≡ map (placed owner_id parent_id order) rows)
unfolding reorder
reorder-inversion rows owner_id parent_id order e = ground arith

-- A reorder that succeeds, of a list that names no folder twice: the list names every folder under
-- this parent, each of them is then at the place that its name has in the list, every other folder
-- is as it was, and there are as many folders as before.
pub reorder-places :
    (rows : List Collection) (owner_id : String) (parent_id : Option String) (order : List String)
    {after : List Collection}
    → Once order
    → reorder rows owner_id parent_id order ≡ ok after
    → ((c : Collection)
        → Memᴰ c rows
        → is_sibling owner_id parent_id c ≡ true
        → (i : ℕ) × (index? c.id order ≡ some i) × Memᴰ (record c { position = i }) after)
      × ((c : Collection) → Memᴰ c rows → is_sibling owner_id parent_id c ≡ false → Memᴰ c after)
      × (length after ≡ length rows)
reorder-places rows owner_id parent_id order {after} once e =
    let (same_length, known, q) = reorder-inversion rows owner_id parent_id order e in
    (
      λ c m s.
          let (i, k) = index-member c.id order (listed same_length known c m s) in
          (i, k, subst (Memᴰ (record c { position = i })) (sym q) (in_place c i m s k)),
      λ c m s. subst (Memᴰ c) (sym q) (
          subst (λ d. Memᴰ d (map (placed owner_id parent_id order) rows)) (rw s refl)
            (Memᴰ-map (placed owner_id parent_id order) c rows m)),
      ap length q ∙ length-map (placed owner_id parent_id order) rows,
    )
  where
    listed :
        length order ≡ length (siblings_of rows owner_id parent_id)
        → any
            (λ i.
              not (any (λ (c : Collection). str_eq i c.id) (siblings_of rows owner_id parent_id)))
            order
          ≡ false
        → (c : Collection) → Memᴰ c rows
        → is_sibling owner_id parent_id c ≡ true
        → Memᴰ c.id order
    listed same_length known c m s =
        all_listed order (ids_of (siblings_of rows owner_id parent_id)) once
          (λ x n.
            let not_unknown = any-false _ x order known n in
            let (d, k, h) =
              any-true (λ (c : Collection). str_eq x c.id) (siblings_of rows owner_id parent_id)
                (ground arith) in
            subst (λ y. Memᴰ y (ids_of (siblings_of rows owner_id parent_id)))
              (sym ((str_eq_iff x d.id).0 h)) (Memᴰ-map (λ (c : Collection). c.id) d _ k))
          (same_length
            ∙ sym (length-map (λ (c : Collection). c.id) (siblings_of rows owner_id parent_id)))
          c.id
          (Memᴰ-map (λ (c : Collection). c.id) c _
            (Memᴰ-filter (is_sibling owner_id parent_id) c rows m s))

    in_place :
        (c : Collection) (i : ℕ)
        → Memᴰ c rows
        → is_sibling owner_id parent_id c ≡ true
        → index? c.id order ≡ some i
        → Memᴰ (record c { position = i }) (map (placed owner_id parent_id order) rows)
    in_place c i m s k =
        subst (λ d. Memᴰ d (map (placed owner_id parent_id order) rows)) (rw (s, place, k) refl)
          (Memᴰ-map (placed owner_id parent_id order) c rows m)
