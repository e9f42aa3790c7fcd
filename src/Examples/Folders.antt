-- ===== src/Examples/Folders.antt =====
-- The theorems on folders at concrete rows.
use mathlib.Core.List.{Memᴰ}
use comfyui_image_frontend.Prelude.{
  ℕ, ◌+◌, ◌≤◌, ◌≡◌, refl, String, true, false, Option, none, some, List, [], ◌∷◌, ◌++◌, index?,
  length, str_eq, ap,
}
use comfyui_image_frontend.Errors.{ok, raised}
use comfyui_image_frontend.Collections.{
  Collection, is_sibling, get_owned, level, create_in_session, reorder, CollectionUpdate,
  collection_cycle, subtree_levels, next_position, update,
}
use comfyui_image_frontend.Collections.Order.{reorder-places}
use comfyui_image_frontend.Collections.Depth.{IsFresh, create_in_session-nests}
use comfyui_image_frontend.Collections.Moved.{update-nests}

abbrev folder : String → Option String → ℕ → Collection
folder i parent n = record {
  id = i;
  owner_id = "ann";
  parent_id = parent;
  name = i;
  previews_enabled = true;
  position = n;
}

abbrev rows : List Collection
rows = folder "a" none 0 ∷ folder "b" none 1 ∷ folder "c" (some "a") 0 ∷ []

abbrev reordered : List Collection
reordered = folder "a" none 1 ∷ folder "b" none 0 ∷ folder "c" (some "a") 0 ∷ []

reorder-places_example :
    ((c : Collection)
      → Memᴰ c rows
      → is_sibling "ann" none c ≡ true
      → (i : ℕ) × (index? c.id ("b" ∷ "a" ∷ []) ≡ some i)
        × Memᴰ (record c { position = i }) reordered)
    × ((c : Collection) → Memᴰ c rows → is_sibling "ann" none c ≡ false → Memᴰ c reordered)
    × (length reordered ≡ length rows)
unfolding reorder
reorder-places_example =
    reorder-places rows "ann" none ("b" ∷ "a" ∷ []) {after = reordered}
      ((λ m. apart m), ((λ m. elim m [ ]), tt)) refl
  where
    apart : ¬ Memᴰ {A = String} "b" ("a" ∷ [])
    apart (Memᴰ.head q) = cc (ap (λ s. str_eq s "a") q)
    apart (Memᴰ.tail m) = elim m [ ]

rows-IsFresh : IsFresh "d" rows
rows-IsFresh q (Memᴰ.head e) = ap (λ (c : Collection). str_eq c.id "d") e
rows-IsFresh q (Memᴰ.tail (Memᴰ.head e)) = ap (λ (c : Collection). str_eq c.id "d") e
rows-IsFresh q (Memᴰ.tail (Memᴰ.tail (Memᴰ.head e))) = ap (λ (c : Collection). str_eq c.id "d") e
rows-IsFresh q (Memᴰ.tail (Memᴰ.tail (Memᴰ.tail m))) = elim m [ ]

create_in_session-nests_example :
    (parent c : Collection) × (depth : ℕ) × (get_owned rows "ann" "c" ≡ ok parent)
    × (level rows "ann" parent ≡ ok depth)
    × (rows ++ folder "d" (some "c") 0 ∷ [] ≡ rows ++ c ∷ [])
    × (c.parent_id ≡ some "c")
    × (level (rows ++ folder "d" (some "c") 0 ∷ []) "ann" c ≡ ok (depth + 1))
    × (depth + 1 ≤ 5)
unfolding create_in_session
create_in_session-nests_example =
    create_in_session-nests "d" rows "ann" "d" "c" {after = rows ++ folder "d" (some "c") 0 ∷ []}
      rows-IsFresh refl

abbrev under_c : CollectionUpdate
under_c = record { name = none; previews_enabled = none; parent_id = some (some "c") }

-- The folder b is moved below a and c.
abbrev b_moved : List Collection
b_moved = folder "a" none 0 ∷ folder "b" (some "c") 0 ∷ folder "c" (some "a") 0 ∷ []

update-nests_example :
    (before parent c : Collection) × (levels : List (List String)) × (depth : ℕ) × (get_owned rows
        "ann" "b"
      ≡ ok before)
    × (subtree_levels rows "ann" before.id ≡ ok levels)
    × (get_owned rows "ann" "c" ≡ ok parent)
    × (level rows "ann" parent ≡ ok depth)
    × (get_owned b_moved "ann" "b" ≡ ok c)
    × (c.parent_id ≡ some "c")
    × (level b_moved "ann" c ≡ ok (depth + 1))
    × (depth + length levels ≤ 5)
unfolding update next_position
update-nests_example = update-nests rows "ann" "b" "c" under_c {after = b_moved} refl refl

-- A folder is not moved into its own subtree.
into_itself : update rows "ann" "a" under_c ≡ raised collection_cycle
unfolding update
into_itself = refl
