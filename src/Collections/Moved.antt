-- ===== src/Collections/Moved.antt =====
-- Where a folder lies after it is moved.
use mathlib.Core.List.{Memᴰ}
use comfyui_image_frontend.Prelude.{
  ℕ, ◌+◌, ◌≤◌, ◌≡◌, refl, sym, subst, ap, ◌∙◌, inl, inr, String, Bool, true, false, ◌&&◌, some,
  List, [], ◌∷◌, length, ltb, str_eq, str_eq_iff, Bool-cases, arith,
}
use comfyui_image_frontend.Errors.{ok, bind-ok, ok_inj, raise_if-ok}
use comfyui_image_frontend.Collections.{
  Collection, CollectionUpdate, get_owned, level, descend, subtree_levels, below, is_within,
  new_level, renamed, moved, replace, move, update, collection_cycle, collection_depth,
}
use comfyui_image_frontend.Collections.Climb.{get_owned-member, level-under}
use comfyui_image_frontend.Collections.Subtree.{subtree-closed}

abbrev owned : String → String → Collection → Bool
owned owner_id i c = str_eq c.id i && str_eq c.owner_id owner_id

-- Writing a row changes no lookup of another one,
get_owned-other :
    (rows : List Collection) (owner_id i : String) (c : Collection) {q : Collection}
    → str_eq c.id i ≡ false
    → get_owned rows owner_id i ≡ ok q
    → get_owned (replace c rows) owner_id i ≡ ok q
unfolding get_owned
get_owned-other [] owner_id i c other e = cc
get_owned-other (r ∷ rows) owner_id i c {q} other e = elim (Bool-cases (str_eq r.id c.id)) [
  | inl same ↦
      let k : str_eq r.id i ≡ false =
        subst (λ x. str_eq x i ≡ false) (sym ((str_eq_iff r.id c.id).0 same)) other in
      rw (same, other) (get_owned-other rows owner_id i c other (rw k at e))
  | inr apart ↦ elim (Bool-cases (owned owner_id i r)) [
    | inl h ↦ rw (apart, h) (rw h at e)
    | inr h ↦ rw (apart, h) (get_owned-other rows owner_id i c other (rw h at e))
  ]
]

-- and that row is found as it is written.
get_owned-replace :
    (rows : List Collection) (owner_id i : String) (c : Collection) {q : Collection}
    → owned owner_id i c ≡ true
    → q.id ≡ c.id
    → get_owned rows owner_id i ≡ ok q
    → get_owned (replace c rows) owner_id i ≡ ok c
unfolding get_owned
get_owned-replace [] owner_id i c mine same e = cc
get_owned-replace (r ∷ rows) owner_id i c {q} mine same e = elim (Bool-cases (str_eq r.id c.id)) [
  | inl written ↦ rw (written, mine) refl
  | inr apart ↦ elim (Bool-cases (owned owner_id i r)) [
    | inl h ↦
        let first : ok r ≡ ok q = rw h at e in
        let found : r.id ≡ q.id = ap (λ (x : Collection). x.id) (ok_inj first) in
        absurd (cc ((str_eq_iff r.id c.id).1 (found ∙ same)))
    | inr h ↦ rw (apart, h) (get_owned-replace rows owner_id i c mine same (rw h at e))
  ]
]

move-inversion :
    (rows : List Collection) (owner_id : String) (c : Collection) (p : String) {c' : Collection}
    → move rows owner_id c (some p) ≡ ok c'
    → (levels : List (List String)) × (parent : Collection) × (depth : ℕ) × (subtree_levels rows
          owner_id c.id
        ≡ ok levels)
      × (is_within c.id (below levels) p ≡ false)
      × (get_owned rows owner_id p ≡ ok parent)
      × (level rows owner_id parent ≡ ok depth)
      × (ltb 5 (depth + 1 + length (below levels)) ≡ false)
      × (c' ≡ moved rows owner_id (some p) c)
unfolding move new_level
move-inversion rows owner_id c p e =
    let (levels, l, e1) = bind-ok (subtree_levels rows owner_id c.id) _ e in
    let (outside, e2) = raise_if-ok (is_within c.id (below levels) p) collection_cycle _ e1 in
    let (d, n, e3) = bind-ok (new_level rows owner_id (some p)) _ e2 in
    let (parent, f, n1) = bind-ok (get_owned rows owner_id p) _ n in
    let (depth, g, n2) = bind-ok (level rows owner_id parent) _ n1 in
    let (b, e4) = raise_if-ok (ltb 5 (d + length (below levels))) collection_depth _ e3 in
    let exact : depth + 1 ≡ d = ok_inj n2 in
    (
      levels,
      parent,
      depth,
      l,
      outside,
      f,
      g,
      subst (λ x. ltb 5 (x + length (below levels)) ≡ false) (sym exact) b,
      sym (ok_inj e4),
    )

length-subtree :
    (rows : List Collection) (owner_id root_id : String) {levels : List (List String)}
    → subtree_levels rows owner_id root_id ≡ ok levels
    → length levels ≡ length (below levels) + 1
unfolding subtree_levels
length-subtree rows owner_id root_id {levels} e =
    let (deeper, f, g) = bind-ok (descend rows owner_id 4 (root_id ∷ [])) _ e in
    subst (λ ls. length ls ≡ length (below ls) + 1) (ok_inj g) (ground arith)

-- The folders outside the subtree of `root_id`.
abbrev Outside : List Collection → String → String → List (List String) → Collection → Type 0
Outside rows owner_id root_id levels q =
    Memᴰ q rows
    × (str_eq q.owner_id owner_id ≡ true)
    × (is_within root_id (below levels) q.id ≡ false)

is_within-apart :
    (root_id : String) (descendants : List (List String)) (i : String)
    → is_within root_id descendants i ≡ false
    → str_eq root_id i ≡ false
is_within-apart root_id descendants i out = elim (Bool-cases (str_eq root_id i)) [
  | inl same ↦
      let back : str_eq i root_id ≡ true =
        (str_eq_iff i root_id).1 (sym ((str_eq_iff root_id i).0 same)) in
      absurd (cc (rw back at out))
  | inr apart ↦ apart
]

-- The parent of a folder outside the subtree is outside, and found as before.
parent-Outside :
    (rows : List Collection) (owner_id : String) (c : Collection) {levels : List (List String)}
    → subtree_levels rows owner_id c.id ≡ ok levels
    → (r : Collection) (i : String) (q : Collection) → Outside rows owner_id c.id levels r
    → r.parent_id ≡ some i
    → get_owned rows owner_id i ≡ ok q
    → (get_owned (replace c rows) owner_id i ≡ ok q) × Outside rows owner_id c.id levels q
parent-Outside rows owner_id c {levels} l r i q (m, o, out) above there =
    let (m', same, o') = get_owned-member rows owner_id i there in
    let named : q.id ≡ i = (str_eq_iff q.id i).0 same in
    let outside : is_within c.id (below levels) i ≡ false =
      elim (Bool-cases (is_within c.id (below levels) i)) [
        | inl within ↦
            let inside = subtree-closed rows owner_id r i m o above c.id l within in
            absurd (cc (sym inside ∙ out))
        | inr w ↦ w
      ] in
    let apart : str_eq c.id i ≡ false = is_within-apart c.id (below levels) i outside in
    (
      get_owned-other rows owner_id i c apart there,
      (m', o', subst (λ x. is_within c.id (below levels) x ≡ false) (sym named) outside),
    )

bounded :
    (rows : List Collection) (owner_id root_id : String) {levels : List (List String)} (depth : ℕ)
    → subtree_levels rows owner_id root_id ≡ ok levels
    → ltb 5 (depth + 1 + length (below levels)) ≡ false
    → depth + length levels ≤ 5
bounded rows owner_id root_id depth l b = ground (arith, length-subtree rows owner_id root_id l, b)

-- The row `c` of a folder is written with a parent outside its subtree.
moved-nests :
    (rows : List Collection) (owner_id i p : String) (c : Collection) {before parent : Collection}
    {levels : List (List String)} {depth : ℕ}
    → get_owned rows owner_id i ≡ ok before
    → before.id ≡ c.id
    → before.owner_id ≡ c.owner_id
    → c.parent_id ≡ some p
    → subtree_levels rows owner_id c.id ≡ ok levels
    → is_within c.id (below levels) p ≡ false
    → get_owned rows owner_id p ≡ ok parent
    → level rows owner_id parent ≡ ok depth
    → depth ≤ 4
    → (get_owned (replace c rows) owner_id i ≡ ok c)
      × (level (replace c rows) owner_id c ≡ ok (depth + 1))
moved-nests rows owner_id i p c {before} {parent} {levels} found same mine above l out f g b =
    let (m, k, o) = get_owned-member rows owner_id i found in
    let (m', k', o') = get_owned-member rows owner_id p f in
    let named : parent.id ≡ p = (str_eq_iff parent.id p).0 k' in
    let id_is : str_eq c.id i ≡ true = subst (λ x. str_eq x i ≡ true) same k in
    let owner_is : str_eq c.owner_id owner_id ≡ true =
      subst (λ x. str_eq x owner_id ≡ true) mine o in
    let parent_out : is_within c.id (below levels) parent.id ≡ false =
      subst (λ x. is_within c.id (below levels) x ≡ false) (sym named) out in
    (
      get_owned-replace rows owner_id i c (rw (id_is, owner_is) refl) same found,
      level-under rows (replace c rows) owner_id (Outside rows owner_id c.id levels)
          (parent-Outside rows owner_id c l) c parent p (m', o', parent_out) above
          (get_owned-other rows owner_id p c (is_within-apart c.id (below levels) p out) f)
          (λ q (_, _, q_out). ground (arith, q_out)) g b,
    )

-- A move of a folder under another succeeds only within the bound: the folder is then found under
-- its new parent, one level below the level that the parent had before, and that level with the
-- levels of the folder's whole subtree is at most five.
pub update-nests :
    (rows : List Collection) (owner_id i p : String) (payload : CollectionUpdate)
    {after : List Collection}
    → payload.parent_id ≡ some (some p)
    → update rows owner_id i payload ≡ ok after
    → (before parent c : Collection) × (levels : List (List String)) × (depth : ℕ) × (get_owned rows
          owner_id i
        ≡ ok before)
      × (subtree_levels rows owner_id before.id ≡ ok levels)
      × (get_owned rows owner_id p ≡ ok parent)
      × (level rows owner_id parent ≡ ok depth)
      × (get_owned after owner_id i ≡ ok c)
      × (c.parent_id ≡ some p)
      × (level after owner_id c ≡ ok (depth + 1))
      × (depth + length levels ≤ 5)
unfolding update
update-nests rows owner_id i p payload {after} chosen e =
    let (before, found, e1) = bind-ok (get_owned rows owner_id i) _ e in
    let (c', mv, e2) =
      bind-ok (move rows owner_id (renamed payload before) (some p)) _ (rw chosen at e1) in
    let (levels, parent, depth, l, out, f, g, b, same) =
      move-inversion rows owner_id (renamed payload before) p mv in
    let c = moved rows owner_id (some p) (renamed payload before) in
    let written : replace c rows ≡ after = ap (λ x. replace x rows) (sym same) ∙ ok_inj e2 in
    let (now, lies) = moved-nests rows owner_id i p c found refl refl refl l out f g (
      omega (
        arith,
        bounded rows owner_id before.id depth l b,
        length-subtree rows owner_id before.id l,
      )) in
    (
      before,
      parent,
      c,
      levels,
      depth,
      found,
      l,
      f,
      g,
      subst (λ after. get_owned after owner_id i ≡ ok c) written now,
      refl,
      subst (λ after. level after owner_id c ≡ ok (depth + 1)) written lies,
      bounded rows owner_id before.id depth l b,
    )
