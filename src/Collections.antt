-- ===== src/Collections.antt =====
-- Folders of a user's generations (backend/app/services/collections.py). The rows of one database;
-- a request is validated before (a folder order lists each folder once).
pub mod Order
pub mod Climb
pub mod Depth
pub mod Subtree
pub mod Moved
use comfyui_image_frontend.Prelude.{
  ℕ, zero, suc, ◌+◌, String, Bool, true, false, not, ◌&&◌, ◌||◌, Option, none, some, List, [], ◌∷◌,
  ◌++◌, map, any, all, filter, length, index?, ltb, ◌==◌, str_eq, if◌then◌else◌,
}
use comfyui_image_frontend.Errors.{Result, AppError, raised, ok, ◌>>=◌, ◌>>◌, raise_if, app_error}

pub record Collection : Type 0 where
  pub id : String
  pub owner_id : String
  pub parent_id : Option String
  pub name : String
  pub previews_enabled : Bool
  pub position : ℕ

abbrev pub collection_not_found : AppError
collection_not_found = app_error "not_found" "Collection was not found." 404

abbrev pub collection_cycle : AppError
collection_cycle =
    app_error "collection_cycle"
      "A collection cannot be moved inside itself or one of its descendants." 409

abbrev pub collection_depth : AppError
collection_depth =
    app_error "collection_depth" "Collections cannot be nested more than 5 levels deep." 409

abbrev pub order_stale : AppError
order_stale =
    app_error "collection_order_stale"
      "Folders changed while you were reordering them. Reload and try again." 409

-- get_owned
unfoldable pub get_owned : List Collection → String → String → Result Collection
get_owned [] owner_id i = raised collection_not_found
get_owned (c ∷ rows) owner_id i =
    if str_eq c.id i && str_eq c.owner_id owner_id then ok c else get_owned rows owner_id i

abbrev same_parent : Option String → Option String → Bool
same_parent none none = true
same_parent (some a) (some b) = str_eq a b
same_parent _ _ = false

abbrev pub is_sibling : String → Option String → Collection → Bool
is_sibling owner_id parent_id c = str_eq c.owner_id owner_id && same_parent c.parent_id parent_id

abbrev pub is_child : List String → Collection → Bool
is_child parent_ids c = elim c.parent_id [ none ↦ false | some p ↦ any (str_eq p) parent_ids ]

abbrev max_position : List Collection → ℕ
max_position [] = 0
max_position (c ∷ rows) =
    if ltb (max_position rows) c.position then c.position else max_position rows

-- _next_position
unfoldable pub next_position : List Collection → String → Option String → ℕ
next_position rows owner_id parent_id = elim (filter (is_sibling owner_id parent_id) rows) [
  | [] ↦ 0
  | c ∷ siblings ↦ max_position (c ∷ siblings) + 1
]

-- The parent that the loop of `_level` goes to.
unfoldable pub parent_of :
    List Collection → String → List String → Collection → Result (Option Collection)
unfolding get_owned
parent_of rows owner_id seen c = elim c.parent_id [
  | none ↦ ok none
  | some p ↦ elim (get_owned rows owner_id p) [
    | raised e ↦ raised e
    | ok parent ↦ if any (str_eq parent.id) seen then raised collection_cycle else ok (some parent)
  ]
]

-- The loop of `_level`; `left` is how many levels there are below the greatest.
unfoldable pub climb : List Collection → String → ℕ → List String → Collection → ℕ → Result ℕ
unfolding parent_of
climb rows owner_id zero seen c level = elim (parent_of rows owner_id seen c) [
  | raised e ↦ raised e
  | ok none ↦ ok level
  | ok (some parent) ↦ raised collection_depth
]
climb rows owner_id (suc left) seen c level = elim (parent_of rows owner_id seen c) [
  | raised e ↦ raised e
  | ok none ↦ ok level
  | ok (some parent) ↦ climb rows owner_id left (parent.id ∷ seen) parent (level + 1)
]

-- _level
unfoldable pub level : List Collection → String → Collection → Result ℕ
unfolding climb
level rows owner_id c = climb rows owner_id 4 (c.id ∷ []) c 1

-- create_in_session, with the id of the new row
unfoldable pub create_in_session :
    String → List Collection → String → String → Option String → Result (List Collection)
unfolding level next_position get_owned
create_in_session new_id rows owner_id name none = ok (
    rows
    ++ record {
      id = new_id;
      owner_id = owner_id;
      parent_id = none;
      name = name;
      previews_enabled = true;
      position = next_position rows owner_id none;
    }
      ∷ [])
create_in_session new_id rows owner_id name (some p) = do
  parent ← get_owned rows owner_id p
  depth ← level rows owner_id parent
  raise_if (not (ltb depth 5)) collection_depth
  ok (
      rows
      ++ record {
        id = new_id;
        owner_id = owner_id;
        parent_id = some p;
        name = name;
        previews_enabled = true;
        position = next_position rows owner_id (some p);
      }
        ∷ [])

-- The folders right under these.
abbrev pub children : List Collection → String → List String → List String
children rows owner_id parent_ids =
    map (λ c. c.id) (filter (λ c. str_eq c.owner_id owner_id && is_child parent_ids c) rows)

-- The loop of `_subtree_levels`; `left` is how many levels may still be added.
unfoldable pub descend : List Collection → String → ℕ → List String → Result (List (List String))
descend rows owner_id zero frontier = elim (children rows owner_id frontier) [
  | [] ↦ ok []
  | i ∷ child_ids ↦ raised collection_depth
]
descend rows owner_id (suc left) frontier = elim (children rows owner_id frontier) [
  | [] ↦ ok []
  | i ∷ child_ids ↦ do
    deeper ← descend rows owner_id left (i ∷ child_ids)
    ok ((i ∷ child_ids) ∷ deeper)
]

-- _subtree_levels
unfoldable pub subtree_levels : List Collection → String → String → Result (List (List String))
unfolding descend
subtree_levels rows owner_id root_id = do
  deeper ← descend rows owner_id 4 (root_id ∷ [])
  ok ((root_id ∷ []) ∷ deeper)

-- `levels[1:]`
abbrev pub below : List (List String) → List (List String)
below [] = []
below (level ∷ levels) = levels

abbrev pub is_within : String → List (List String) → String → Bool
is_within root_id descendants i = str_eq i root_id || any (any (str_eq i)) descendants

abbrev within_subtree : String → List (List String) → Option String → Bool
within_subtree root_id descendants none = false
within_subtree root_id descendants (some p) = is_within root_id descendants p

-- The level that the moved folder gets.
unfoldable pub new_level : List Collection → String → Option String → Result ℕ
unfolding get_owned level
new_level rows owner_id none = ok 1
new_level rows owner_id (some p) = do
  parent ← get_owned rows owner_id p
  depth ← level rows owner_id parent
  ok (depth + 1)

-- CollectionUpdate, where `parent_id` is none when the request does not set it
pub record CollectionUpdate : Type 0 where
  pub name : Option String
  pub previews_enabled : Option Bool
  pub parent_id : Option (Option String)

abbrev pub renamed : CollectionUpdate → Collection → Collection
renamed payload c = record c {
  name = elim payload.name [ none ↦ c.name | some name ↦ name ];
  previews_enabled = elim payload.previews_enabled [ none ↦ c.previews_enabled | some b ↦ b ];
}

abbrev pub moved : List Collection → String → Option String → Collection → Collection
moved rows owner_id new_parent_id c = record c {
  position =
      if same_parent new_parent_id c.parent_id
      then c.position
      else next_position rows owner_id new_parent_id;
  parent_id = new_parent_id;
}

-- The row is written.
abbrev pub replace : Collection → List Collection → List Collection
replace c rows = map (λ r. if str_eq r.id c.id then c else r) rows

-- The branch of `update` that moves the folder
unfoldable pub move : List Collection → String → Collection → Option String → Result Collection
unfolding subtree_levels new_level
move rows owner_id c new_parent_id = do
  levels ← subtree_levels rows owner_id c.id
  raise_if (within_subtree c.id (below levels) new_parent_id) collection_cycle
  depth ← new_level rows owner_id new_parent_id
  raise_if (ltb 5 (depth + length (below levels))) collection_depth
  ok (moved rows owner_id new_parent_id c)

-- update
unfoldable pub update :
    List Collection → String → String → CollectionUpdate → Result (List Collection)
unfolding get_owned move
update rows owner_id collection_id payload = do
  c ← get_owned rows owner_id collection_id
  updated ← elim payload.parent_id [
    | none ↦ ok (renamed payload c)
    | some new_parent_id ↦ move rows owner_id (renamed payload c) new_parent_id
  ]
  ok (replace updated rows)

abbrev check_parent : List Collection → String → Option String → Result (Unit {0})
check_parent rows owner_id none = ok tt
check_parent rows owner_id (some p) = elim (get_owned rows owner_id p) [
  | raised e ↦ raised e
  | ok c ↦ ok tt
]

abbrev pub place : List String → Collection → Collection
place order c = elim (index? c.id order) [ none ↦ c | some i ↦ record c { position = i } ]

-- reorder
unfoldable pub reorder :
    List Collection → String → Option String → List String → Result (List Collection)
unfolding get_owned
reorder rows owner_id parent_id collection_ids = do
  check_parent rows owner_id parent_id
  let siblings = filter (is_sibling owner_id parent_id) rows
  raise_if
      (not (length collection_ids == length siblings)
        || any (λ i. not (any (λ (c : Collection). str_eq i c.id) siblings)) collection_ids)
      order_stale
  ok (map (λ c. if is_sibling owner_id parent_id c then place collection_ids c else c) rows)
