-- ===== src/Scheduler/Turn.antt =====
-- Whose turn it is: owners in the order of their oldest job, one after another.
use Prim.Native.Nat.{Ordering}
use Prim.Native.String.{compare}
use comfyui_image_frontend.Prelude.{
  ℕ, ◌+◌, ◌%◌, String, Bool, true, false, ◌&&◌, ◌||◌, Option, none, some, List, [], ◌∷◌, map,
  length, ltb, ◌==◌, str_eq, get_elem?, index?, if◌then◌else◌,
}
use comfyui_image_frontend.Artifacts.{sort}

-- An owner with the number of the oldest job in line.
abbrev pub First : Type 0
First = String × ℕ

abbrev min_ℕ : ℕ → ℕ → ℕ
min_ℕ a b = if ltb b a then b else a

-- `first_by_owner[owner] = min(first_by_owner.get(owner, seq), seq)`
unfoldable pub note_first : First → List First → List First
note_first (o, n) [] = (o, n) ∷ []
note_first (o, n) ((p, m) ∷ rest) =
    if str_eq p o then (p, min_ℕ m n) ∷ rest else (p, m) ∷ note_first (o, n) rest

unfoldable pub first_by_owner : List First → List First
unfolding note_first
first_by_owner [] = []
first_by_owner (j ∷ jobs) = note_first j (first_by_owner jobs)

abbrev text_le : String → String → Bool
text_le a b = elim (compare a b) [ Ordering.gt ↦ false | _ ↦ true ]

-- `key=lambda owner: (first_by_owner[owner], owner)`
abbrev pub earlier : First → First → Bool
earlier (o, n) (p, m) = ltb n m || (n == m) && text_le o p

unfoldable pub owner_order : List First → List String
unfolding first_by_owner sort
owner_order jobs = map (λ j. j.0) (sort earlier (first_by_owner jobs))

-- The owner after the last one served, in a circle; the first, where that one waits no more.
unfoldable pub next_owner : Option String → List String → Option String
next_owner none owners = get_elem? owners 0
next_owner (some last) owners = elim (index? last owners) [
  | none ↦ get_elem? owners 0
  | some i ↦ get_elem? owners ((i + 1) % length owners)
]
