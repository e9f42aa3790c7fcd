-- ===== src/Artifacts.antt =====
-- The choice of the artifact that stands for a generation (`_best_native_image`,
-- `_artifact_sequence`, `_is_better_presentation_candidate` of
-- backend/app/services/queue_worker.py).
pub mod Best
pub mod Greatest
pub mod Sorted
use comfyui_image_frontend.Prelude.{
  ℕ, ◌+◌, ◌*◌, String, Bool, true, false, ◌&&◌, ◌||◌, Option, none, some, List, [], ◌∷◌, ◌==◌, ltb,
  leb, filter, str_eq, not, if◌then◌else◌,
}
use comfyui_image_frontend.Database.{Artifact}

-- `role_rank.get(role, 0)`
unfoldable pub role_rank : String → ℕ
role_rank role =
    if str_eq role "auxiliary"
    then 1
    else if str_eq role "preview"
    then 2
    else if str_eq role "comparison"
    then 3
    else if str_eq role "final"
    then 4
    else 0

-- `storage_rank.get(source_type or "", 0)`
unfoldable pub storage_rank : Option String → ℕ
storage_rank none = 0
storage_rank (some t) = if str_eq t "input" then 1 else if str_eq t "output" then 2 else 0

abbrev pub flag : Bool → ℕ
flag true = 1
flag false = 0

abbrev pub emitted_score : Option ℕ → ℕ
emitted_score none = 0
emitted_score (some t) = t

-- The key of the maximum in `_best_native_image`.
unfoldable pub presentation_key : Artifact → List ℕ
unfolding role_rank storage_rank
presentation_key a =
    role_rank a.role
    ∷ storage_rank a.source_type
    ∷ a.sequence
    ∷ flag (a.batch_index == 0)
    ∷ emitted_score a.emitted_at
    ∷ []

-- Comparison of tuples.
unfoldable pub lex_lt : List ℕ → List ℕ → Bool
lex_lt [] [] = false
lex_lt [] (y ∷ ys) = true
lex_lt (x ∷ xs) [] = false
lex_lt (x ∷ xs) (y ∷ ys) =
    let rest = lex_lt xs ys in if ltb x y then true else if x == y then rest else false

-- `max(..., key=key)`: the first of the greatest.
module _ (key : Artifact → List ℕ) where
  unfoldable pub max_from : Artifact → List Artifact → Artifact
  max_from best [] = best
  max_from best (a ∷ rest) = max_from (if lex_lt (key best) (key a) then a else best) rest

  abbrev pub best_of : List Artifact → Option Artifact
  best_of [] = none
  best_of (a ∷ rest) = some (max_from a rest)

abbrev pub is_image : Artifact → Bool
is_image a = str_eq a.kind "image"

abbrev pub is_final : Artifact → Bool
is_final a = str_eq a.role "final"

-- _best_native_image
unfoldable pub best_native_image : List Artifact → Option Artifact
unfolding max_from presentation_key
best_native_image artifacts = best_of presentation_key (filter is_image artifacts)

-- `sort`, which keeps the order of equal elements.
module _ {ℓ} {A : Type ℓ} (le : A → A → Bool) where
  unfoldable pub insert_sorted : A → List A → List A
  insert_sorted x [] = x ∷ []
  insert_sorted x (y ∷ ys) = if le x y then x ∷ y ∷ ys else y ∷ insert_sorted x ys

  unfoldable pub sort : List A → List A
  unfolding insert_sorted
  sort [] = []
  sort (x ∷ xs) = insert_sorted x (sort xs)

-- `ORDER BY sequence DESC, batch_index`
abbrev pub newest_first : Artifact → Artifact → Bool
newest_first a b =
    ltb b.sequence a.sequence || (a.sequence == b.sequence) && leb a.batch_index b.batch_index

-- `key=lambda item: (item.sequence, item.batch_index)`
abbrev pub oldest_first : Artifact → Artifact → Bool
oldest_first a b =
    ltb a.sequence b.sequence || (a.sequence == b.sequence) && leb a.batch_index b.batch_index

-- _artifact_sequence; a declared sequence below 0 counts as 0.
unfoldable pub artifact_sequence : String → ℕ → ℕ
unfolding role_rank
artifact_sequence role sequence = role_rank role * 1000 + sequence

-- _is_better_presentation_candidate
unfoldable pub is_better_presentation_candidate : Artifact → Artifact → Bool
is_better_presentation_candidate candidate current =
    ltb current.sequence candidate.sequence
    || (candidate.sequence == current.sequence)
      && (candidate.batch_index == 0)
      && not (current.batch_index == 0)
