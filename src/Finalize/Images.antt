-- ===== src/Finalize/Images.antt =====
-- Which artifacts are left after a finalization.
use mathlib.Core.List.{Memᴰ}
use comfyui_image_frontend.Prelude.{
  ◌≡◌, refl, ◌∙◌, sym, subst, ap, ◌⊎◌, inl, inr, Bool, true, false, not, ◌&&◌, Option, none, some,
  String, List, [], ◌∷◌, map, filter, any, All, arith, Bool-cases, str_eq, str_eq_iff, some_inj,
  if◌then◌else◌,
}
use comfyui_image_frontend.Prelude.Members.{
  Memᴰ-of_filter, Memᴰ-filter, All-intro, Memᴰ-of_map, Memᴰ-map,
}
use comfyui_image_frontend.Database.{Artifact}
use comfyui_image_frontend.Artifacts.{is_image, is_final, oldest_first, best_native_image}
use comfyui_image_frontend.Artifacts.Best.{Chosen, best_native_image_lem}
use comfyui_image_frontend.Artifacts.Sorted.{Memᴰ-of_sort}
use comfyui_image_frontend.Finalize.Retention.{
  has_id, id_of, first_or, is_retained, mark_success, mark_partial, declared_finals, presentation,
  retain_success, salvage, retain_partial,
}

-- The id is the primary key.
abbrev pub Distinct : List Artifact → Type 0
Distinct xs = (a b : Artifact) → Memᴰ a xs → Memᴰ b xs → a.id ≡ b.id → a ≡ b

-- The artifact of this id is left, with this mark.
abbrev pub Names : (Artifact → Bool) → List Artifact → Option String → Type 0
Names mark xs none = Unit {0}
Names mark xs (some i) = (a : Artifact) × Memᴰ a xs × (a.id ≡ i) × (mark a ≡ true)

str_eq_refl : (s : String) → str_eq s s ≡ true
str_eq_refl s = (str_eq_iff s s).1 refl

-- A loop that marks every artifact and deletes some.
module _ (drop : Artifact → Bool) (mark : Artifact → Artifact) where
  abbrev swept : List Artifact → List Artifact
  swept xs = map mark (filter (λ a. not (drop a)) xs)

  Memᴰ-swept :
      (a : Artifact) (xs : List Artifact) → Memᴰ a xs → drop a ≡ false → Memᴰ (mark a) (swept xs)
  Memᴰ-swept a xs m e = Memᴰ-map mark a _ (Memᴰ-filter _ a xs m (ap not e))

  Memᴰ-of_swept :
      (b : Artifact) (xs : List Artifact)
      → Memᴰ b (swept xs)
      → (a : Artifact) × Memᴰ a xs × (drop a ≡ false) × (b ≡ mark a)
  Memᴰ-of_swept b xs m =
      let (a, n, e) = Memᴰ-of_map mark b _ m in
      let (n', k) = Memᴰ-of_filter _ a xs n in (a, n', ground arith, e)

-- Every image that is left is canonical or the best available one.
abbrev pub Shown : List Artifact → Type 0
Shown xs = All (λ a. is_image a ≡ true → (a.canonical ≡ true) ⊎ (a.best_available ≡ true)) xs

pub salvage-member :
    (on_cancel : Bool) (xs : List Artifact) {b : Artifact}
    → salvage on_cancel xs ≡ some b
    → Memᴰ b xs
unfolding salvage
salvage-member on_cancel xs {b} e =
    let p = λ (a : Artifact).
      is_image a && (if on_cancel then a.usable_on_cancel else a.usable_on_failure) in
    (Memᴰ-of_filter p b xs
      (subst (Chosen (filter p xs)) e (best_native_image_lem (filter p xs))).member).0

pub retain_partial-Shown :
    (best : Option Artifact) (xs : List Artifact) → Shown (retain_partial best xs).artifacts
unfolding retain_partial
retain_partial-Shown best xs = All-intro _ _ λ b m i.
    let (a, n, kept, e) =
      Memᴰ-of_swept (λ a. is_image a && not (has_id best a)) (mark_partial best) b xs m in
    inr (shown a b e kept i)
  where
    shown :
        (a b : Artifact)
        → b ≡ mark_partial best a
        → (is_image a && not (has_id best a)) ≡ false
        → is_image b ≡ true
        → b.best_available ≡ true
    shown a b e kept i =
        ap (λ (c : Artifact). c.best_available) e ∙ named a kept (ap is_image (sym e) ∙ i)
      where
        named :
            (a : Artifact)
            → (is_image a && not (has_id best a)) ≡ false
            → is_image a ≡ true
            → has_id best a ≡ true
        named a k j = ground arith

pub retain_partial-Names :
    (best : Option Artifact) (xs : List Artifact)
    → ((b : Artifact) → best ≡ some b → Memᴰ b xs)
    → Names (λ a. a.best_available) (retain_partial best xs).artifacts (id_of best)
unfolding retain_partial
retain_partial-Names none xs h = tt
retain_partial-Names (some b) xs h =
    let same : has_id (some b) b ≡ true = str_eq_refl b.id in
    (
      mark_partial (some b) b,
      Memᴰ-swept (λ a. is_image a && not (has_id (some b) a)) (mark_partial (some b)) b xs
          (h b refl) (rw same (ground arith)),
      refl,
      same,
    )

finals-member :
    (xs : List Artifact) (a : Artifact)
    → Memᴰ a (declared_finals xs)
    → Memᴰ a xs × (is_final a ≡ true)
unfolding declared_finals
finals-member xs a m =
    Memᴰ-of_filter is_final a xs (Memᴰ-of_sort oldest_first a (filter is_final xs) m)

any-id :
    (a : Artifact) (fs : List Artifact)
    → any (λ b. str_eq a.id b.id) fs ≡ true
    → (b : Artifact) × Memᴰ b fs × (a.id ≡ b.id)
any-id a [] h = cc
any-id a (f ∷ fs) h = elim (Bool-cases (str_eq a.id f.id)) [
  | inl e ↦ (f, Memᴰ.head refl, (str_eq_iff a.id f.id).0 e)
  | inr e ↦ let (b, m, q) = any-id a fs (ground arith) in (b, Memᴰ.tail m, q)
]

any-id_member :
    (a : Artifact) (fs : List Artifact) → Memᴰ a fs → any (λ b. str_eq a.id b.id) fs ≡ true
any-id_member a [] m = elim m [ ]
any-id_member a (f ∷ fs) (Memᴰ.head q) =
    let e : str_eq a.id f.id ≡ true = (str_eq_iff a.id f.id).1 (ap (λ (b : Artifact). b.id) q) in
    rw e
any-id_member a (f ∷ fs) (Memᴰ.tail m) = ground (arith, any-id_member a fs m)

retained-cases :
    (xs finals : List Artifact) (shown : Option Artifact)
    → Distinct xs
    → ((b : Artifact) → Memᴰ b finals → Memᴰ b xs × (is_final b ≡ true))
    → (a : Artifact) → Memᴰ a xs
    → is_retained finals shown a ≡ true
    → (is_final a ≡ true) ⊎ (has_id shown a ≡ true)
retained-cases xs [] shown distinct members a m h = inr h
retained-cases xs (f ∷ fs) shown distinct members a m h =
    let (b, n, q) = any-id a (f ∷ fs) h in
    let (in_xs, final) = members b n in inl (ap is_final (distinct a b m in_xs q) ∙ final)

first_or-retained :
    (finals : List Artifact) (best : Option Artifact) {p : Artifact}
    → first_or best finals ≡ some p
    → is_retained finals (some p) p ≡ true
first_or-retained [] best {p} e = str_eq_refl p.id
first_or-retained (f ∷ fs) best {p} e = any-id_member p (f ∷ fs) (Memᴰ.head (some_inj (sym e)))

first_or-member :
    (xs finals : List Artifact) (best : Option Artifact) {p : Artifact}
    → ((b : Artifact) → Memᴰ b finals → Memᴰ b xs)
    → ((b : Artifact) → best ≡ some b → Memᴰ b xs)
    → first_or best finals ≡ some p
    → Memᴰ p xs
first_or-member xs [] best {p} fm bm e = bm p e
first_or-member xs (f ∷ fs) best {p} fm bm e = fm p (Memᴰ.head (some_inj (sym e)))

presentation-member : (xs : List Artifact) {p : Artifact} → presentation xs ≡ some p → Memᴰ p xs
unfolding presentation
presentation-member xs {p} e =
    first_or-member xs (declared_finals xs) (best_native_image xs) (λ b m. (finals-member xs b m).0)
      (λ b q. (subst (Chosen xs) q (best_native_image_lem xs)).member) e

-- What the loop over a successful result deletes.
abbrev surplus : List Artifact → Artifact → Bool
surplus xs a = is_image a && not (is_retained (declared_finals xs) (presentation xs) a)

pub retain_success-Shown : (xs : List Artifact) → Distinct xs → Shown (retain_success xs).artifacts
unfolding retain_success
retain_success-Shown xs distinct = All-intro _ _ λ b m i.
    let (a, n, kept, e) = Memᴰ-of_swept (surplus xs) (mark_success (presentation xs)) b xs m in
    marked a b e (
      retained-cases xs (declared_finals xs) (presentation xs) distinct (finals-member xs) a n
        (not_surplus a kept (ap is_image (sym e) ∙ i)))
  where
    not_surplus :
        (a : Artifact)
        → surplus xs a ≡ false
        → is_image a ≡ true
        → is_retained (declared_finals xs) (presentation xs) a ≡ true
    not_surplus a k i = ground arith

    marked :
        (a b : Artifact)
        → b ≡ mark_success (presentation xs) a
        → (is_final a ≡ true) ⊎ (has_id (presentation xs) a ≡ true)
        → (b.canonical ≡ true) ⊎ (b.best_available ≡ true)
    marked a b e (inl f) = inl (ap (λ (c : Artifact). c.canonical) e ∙ f)
    marked a b e (inr f) = inr (ap (λ (c : Artifact). c.best_available) e ∙ f)

-- What is retained is left, marked.
retained-left :
    (xs : List Artifact) (a : Artifact)
    → Memᴰ a xs
    → is_retained (declared_finals xs) (presentation xs) a ≡ true
    → Memᴰ (mark_success (presentation xs) a) (retain_success xs).artifacts
unfolding retain_success
retained-left xs a m r =
    Memᴰ-swept (surplus xs) (mark_success (presentation xs)) a xs m (rw r (ground arith))

pub retain_success-best :
    (xs : List Artifact) (shown : Option Artifact)
    → presentation xs ≡ shown
    → Names (λ a. a.best_available) (retain_success xs).artifacts (id_of shown)
retain_success-best xs none e = tt
retain_success-best xs (some p) e = (
  mark_success (presentation xs) p,
  retained-left xs p (presentation-member xs e) (
      subst (λ s. is_retained (declared_finals xs) s p ≡ true) (sym e)
        (first_or-retained (declared_finals xs) (best_native_image xs) (unfold presentation in e))),
  refl,
  subst (λ s. has_id s p ≡ true) (sym e) (str_eq_refl p.id),
)

pub retain_success-canonical :
    (xs finals : List Artifact)
    → declared_finals xs ≡ finals
    → Names (λ a. a.canonical) (retain_success xs).artifacts (id_of (first_or none finals))
retain_success-canonical xs [] e = tt
retain_success-canonical xs (f ∷ fs) e =
    let m : Memᴰ f (declared_finals xs) = subst (Memᴰ f) (sym e) (Memᴰ.head refl) in
    let (in_xs, final) = finals-member xs f m in
    (
      mark_success (presentation xs) f,
      retained-left xs f in_xs (
          subst (λ d. is_retained d (presentation xs) f ≡ true) (sym e)
            (any-id_member f (f ∷ fs) (Memᴰ.head refl))),
      refl,
      final,
    )
