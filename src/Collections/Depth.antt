-- ===== src/Collections/Depth.antt =====
-- How deep folders are nested.
use mathlib.Core.List.{Memᴰ}
use comfyui_image_frontend.Prelude.{
  ℕ, ◌+◌, ◌≤◌, ◌<◌, ◌≡◌, refl, sym, subst, String, Bool, true, false, not, some, List, [], ◌∷◌,
  ◌++◌, ltb, ltb→lt, str_eq, arith,
}
use comfyui_image_frontend.Errors.{ok, bind-ok, ok_inj, raise_if-ok}
use comfyui_image_frontend.Collections.Climb.{get_owned-member, level-under}
use comfyui_image_frontend.Collections.{
  Collection, get_owned, level, next_position, create_in_session, collection_depth,
}

-- A row that is added changes no lookup that succeeded.
get_owned-append :
    (rows new : List Collection) (owner_id i : String) {q : Collection}
    → get_owned rows owner_id i ≡ ok q
    → get_owned (rows ++ new) owner_id i ≡ ok q
unfolding get_owned
get_owned-append [] new owner_id i e = cc
get_owned-append (c ∷ rows) new owner_id i {q} e =
    ground (arith, get_owned-append rows new owner_id i {q = q})

-- The id of a new row is new.
abbrev pub IsFresh : String → List Collection → Type 0
IsFresh new_id rows = (q : Collection) → Memᴰ q rows → str_eq q.id new_id ≡ false

abbrev new_folder : String → List Collection → String → String → String → Collection
new_folder new_id rows owner_id name p = record {
  id = new_id;
  owner_id = owner_id;
  parent_id = some p;
  name = name;
  previews_enabled = true;
  position = next_position rows owner_id (some p);
}

create-inversion :
    (new_id : String) (rows : List Collection) (owner_id name p : String) {after : List Collection}
    → create_in_session new_id rows owner_id name (some p) ≡ ok after
    → (parent : Collection) × (depth : ℕ) × (get_owned rows owner_id p ≡ ok parent)
      × (level rows owner_id parent ≡ ok depth)
      × (ltb depth 5 ≡ true)
      × (after ≡ rows ++ new_folder new_id rows owner_id name p ∷ [])
unfolding create_in_session
create-inversion new_id rows owner_id name p e =
    let (parent, f, e1) = bind-ok (get_owned rows owner_id p) _ e in
    let (depth, g, e2) = bind-ok (level rows owner_id parent) _ e1 in
    let (b, e3) = raise_if-ok (not (ltb depth 5)) collection_depth _ e2 in
    (parent, depth, f, g, not_false (ltb depth 5) b, sym (ok_inj e3))
  where
    not_false : (b : Bool) → not b ≡ false → b ≡ true
    not_false true h = refl
    not_false false h = sym h

new-level :
    (new_id : String) (rows : List Collection) (owner_id name p : String) (parent : Collection)
    (depth : ℕ)
    → IsFresh new_id rows
    → get_owned rows owner_id p ≡ ok parent
    → level rows owner_id parent ≡ ok depth
    → depth ≤ 4
    → let c = new_folder new_id rows owner_id name p in
      level (rows ++ c ∷ []) owner_id c ≡ ok (depth + 1)
new-level new_id rows owner_id name p parent depth fresh f g b =
    let c = new_folder new_id rows owner_id name p in
    level-under rows (rows ++ c ∷ []) owner_id (λ q. Memᴰ q rows)
      (λ r i q m above there. (
        get_owned-append rows (c ∷ []) owner_id i there,
        (get_owned-member rows owner_id i there).0,
      ))
      c parent p (get_owned-member rows owner_id p f).0 refl
      (get_owned-append rows (c ∷ []) owner_id p f) fresh g b

-- A folder that is created under a parent is the last row, lies one level below the parent, and at
-- most five levels deep.
pub create_in_session-nests :
    (new_id : String) (rows : List Collection) (owner_id name p : String) {after : List Collection}
    → IsFresh new_id rows
    → create_in_session new_id rows owner_id name (some p) ≡ ok after
    → (parent c : Collection) × (depth : ℕ) × (get_owned rows owner_id p ≡ ok parent)
      × (level rows owner_id parent ≡ ok depth)
      × (after ≡ rows ++ c ∷ [])
      × (c.parent_id ≡ some p)
      × (level after owner_id c ≡ ok (depth + 1))
      × (depth + 1 ≤ 5)
create_in_session-nests new_id rows owner_id name p {after} fresh e =
    let (parent, depth, f, g, h, q) = create-inversion new_id rows owner_id name p e in
    let c = new_folder new_id rows owner_id name p in
    let b : depth < 5 = ltb→lt depth 5 h in
    let l : level (rows ++ c ∷ []) owner_id c ≡ ok (depth + 1) =
      new-level new_id rows owner_id name p parent depth fresh f g (omega (arith, b)) in
    (
      parent,
      c,
      depth,
      f,
      g,
      q,
      refl,
      subst (λ rows'. level rows' owner_id c ≡ ok (depth + 1)) (sym q) l,
      omega (arith, b),
    )
