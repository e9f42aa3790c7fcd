-- ===== src/Collections/Subtree.antt =====
-- The subtree that `_subtree_levels` collects is closed: it holds the children of its folders.
use mathlib.Core.List.{Memᴰ}
use comfyui_image_frontend.Prelude.{
  ℕ, zero, suc, ◌≡◌, refl, subst, ap, ◌⊎◌, inl, inr, String, true, ◌&&◌, ◌||◌, some, List, [], ◌∷◌,
  any, str_eq, str_eq_iff, Bool-cases, arith,
}
use comfyui_image_frontend.Errors.{ok, bind-ok}
use comfyui_image_frontend.Collections.{
  Collection, is_child, children, descend, subtree_levels, below, is_within,
}

children-any :
    (rows : List Collection) (owner_id : String) (parent_ids : List String) (c : Collection)
    (p : String)
    → Memᴰ c rows
    → str_eq c.owner_id owner_id ≡ true
    → c.parent_id ≡ some p
    → any (str_eq p) parent_ids ≡ true
    → any (str_eq c.id) (children rows owner_id parent_ids) ≡ true
children-any [] owner_id parent_ids c p m o q h = elim m [ ]
children-any (r ∷ rows) owner_id parent_ids c p (Memᴰ.head e) o q h =
    let same : str_eq c.id r.id ≡ true =
      (str_eq_iff c.id r.id).1 (ap (λ (x : Collection). x.id) e) in
    let kept : (str_eq r.owner_id owner_id && is_child parent_ids r) ≡ true =
      subst (λ x. (str_eq x.owner_id owner_id && is_child parent_ids x) ≡ true) e (rw (o, q) h) in
    rw (kept, same) refl
children-any (r ∷ rows) owner_id parent_ids c p (Memᴰ.tail m) o q h =
    ground (arith, children-any rows owner_id parent_ids c p m o q h)

List-cases : {A : Type 0} (xs : List A) → (xs ≡ []) ⊎ ((y : A) × (ys : List A) × (xs ≡ y ∷ ys))
List-cases [] = inl refl
List-cases (y ∷ ys) = inr (y, ys, refl)

-- Nothing is under this level.
descend-end :
    (rows : List Collection) (owner_id : String) (left : ℕ) (frontier : List String)
    {levels : List (List String)}
    → children rows owner_id frontier ≡ []
    → descend rows owner_id left frontier ≡ ok levels
    → levels ≡ []
unfolding descend
descend-end rows owner_id zero frontier none_under e = cc (rw (descend, none_under) at e)
descend-end rows owner_id (suc left) frontier none_under e = cc (rw (descend, none_under) at e)

module _ (rows : List Collection) (owner_id : String) (c : Collection) (p : String)
    (m : Memᴰ c rows) (o : str_eq c.owner_id owner_id ≡ true) (q : c.parent_id ≡ some p) where
  -- Where nothing is under the level, this folder is not in the subtree either.
  closed-end :
      (left : ℕ) (frontier : List String) {levels : List (List String)}
      → children rows owner_id frontier ≡ []
      → descend rows owner_id left frontier ≡ ok levels
      → (any (str_eq p) frontier || any (any (str_eq p)) levels) ≡ true
      → any (any (str_eq c.id)) levels ≡ true
  closed-end left frontier {levels} none_under e h =
      let last : levels ≡ [] = descend-end rows owner_id left frontier none_under e in
      let found : any (str_eq p) frontier ≡ true = ground (arith, rw last at h) in
      let here = children-any rows owner_id frontier c p m o q found in
      absurd (cc (rw none_under at here))

  descend-closed :
      (left : ℕ) (frontier : List String) {levels : List (List String)}
      → descend rows owner_id left frontier ≡ ok levels
      → (any (str_eq p) frontier || any (any (str_eq p)) levels) ≡ true
      → any (any (str_eq c.id)) levels ≡ true
  unfolding descend
  descend-closed zero frontier e h = elim (List-cases (children rows owner_id frontier)) [
    | inl none_under ↦ closed-end zero frontier none_under e h
    | inr (i, is, some_under) ↦ absurd (cc (rw (descend, some_under) at e))
  ]
  descend-closed (suc left) frontier {levels} e h =
      elim (List-cases (children rows owner_id frontier)) [
        | inl none_under ↦ closed-end (suc left) frontier none_under e h
        | inr (i, is, some_under) ↦
            let (deeper, f, g) =
              bind-ok (descend rows owner_id left (i ∷ is)) (λ deeper. ok ((i ∷ is) ∷ deeper))
                (rw (descend, some_under) at e) in
            let same : levels ≡ (i ∷ is) ∷ deeper = cc g in
            elim (Bool-cases (any (str_eq p) frontier)) [
              | inl found ↦
                  let here = children-any rows owner_id frontier c p m o q found in
                  rw same (ground (arith, rw some_under at here))
              | inr not_here ↦
                  let later =
                    descend-closed left (i ∷ is) f (ground (arith, rw (same, not_here) at h)) in
                  rw same (ground (arith, later))
            ]
      ]

  -- With a folder, the subtree holds the folders under it.
  pub subtree-closed :
      (root_id : String) {levels : List (List String)}
      → subtree_levels rows owner_id root_id ≡ ok levels
      → is_within root_id (below levels) p ≡ true
      → is_within root_id (below levels) c.id ≡ true
  unfolding subtree_levels
  subtree-closed root_id {levels} e h =
      let (deeper, f, g) =
        bind-ok (descend rows owner_id 4 (root_id ∷ [])) (λ deeper. ok ((root_id ∷ []) ∷ deeper))
          e in
      let same : levels ≡ (root_id ∷ []) ∷ deeper = cc g in
      let found = descend-closed 4 (root_id ∷ []) f (ground (arith, rw same at h)) in
      rw same (ground (arith, found))
