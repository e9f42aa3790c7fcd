-- ===== src/Finalize/Retention.antt =====
-- Which artifacts a result keeps, and which stands for it (`_commit_finalization` of
-- backend/app/services/queue_worker.py).
use comfyui_image_frontend.Prelude.{
  String, Bool, false, not, ◌&&◌, Option, none, some, List, [], ◌∷◌, ◌++◌, map, any, filter, str_eq,
  if◌then◌else◌,
}
use comfyui_image_frontend.Database.{
  Artifact, ArtifactState, provisional, superseded, best_available, final,
}
use comfyui_image_frontend.Artifacts.{best_native_image, is_image, is_final, sort, oldest_first}

abbrev pub paths : Artifact → List String
paths a =
    filter (λ t. not (str_eq t ""))
      (a.storage_path ∷ elim a.thumbnail_path [ none ↦ [] | some t ↦ t ∷ [] ])

abbrev pub pruned : List Artifact → List String
pruned [] = []
pruned (a ∷ rest) = paths a ++ pruned rest

abbrev pub has_id : Option Artifact → Artifact → Bool
has_id none a = false
has_id (some b) a = str_eq a.id b.id

abbrev pub id_of : Option Artifact → Option String
id_of none = none
id_of (some a) = some a.id

abbrev pub settled : ArtifactState → ArtifactState
settled provisional = superseded
settled s = s

-- What a session holds of the generation's artifacts after the loop over them.
pub record Kept : Type 0 where
  pub artifacts : List Artifact
  pub deleted : List Artifact

-- The artifacts of a successful result, and what stands for it.
unfoldable pub declared_finals : List Artifact → List Artifact
unfolding sort
declared_finals artifacts = sort oldest_first (filter is_final artifacts)

abbrev pub first_or : Option Artifact → List Artifact → Option Artifact
first_or d [] = d
first_or d (f ∷ fs) = some f

unfoldable pub presentation : List Artifact → Option Artifact
unfolding declared_finals best_native_image
presentation artifacts = first_or (best_native_image artifacts) (declared_finals artifacts)

abbrev pub is_retained : List Artifact → Option Artifact → Artifact → Bool
is_retained [] shown a = has_id shown a
is_retained (f ∷ fs) shown a = any (λ b. str_eq a.id b.id) (f ∷ fs)

abbrev pub mark_success : Option Artifact → Artifact → Artifact
mark_success shown a = record a {
  canonical = is_final a;
  best_available = has_id shown a;
  state = if is_final a then final else if has_id shown a then best_available else settled a.state;
}

unfoldable pub retain_success : List Artifact → Kept
unfolding declared_finals presentation
retain_success artifacts =
    let drop = λ (a : Artifact).
      is_image a && not (is_retained (declared_finals artifacts) (presentation artifacts) a) in
    record {
      artifacts =
          map (mark_success (presentation artifacts)) (filter (λ a. not (drop a)) artifacts);
      deleted = filter drop artifacts;
    }

-- The artifacts of a cancelled, failed or interrupted result: at most one image.
unfoldable pub salvage : Bool → List Artifact → Option Artifact
unfolding best_native_image
salvage on_cancel artifacts = best_native_image (
    filter (λ a. is_image a && (if on_cancel then a.usable_on_cancel else a.usable_on_failure))
      artifacts)

abbrev pub mark_partial : Option Artifact → Artifact → Artifact
mark_partial best a = record a {
  canonical = false;
  best_available = has_id best a;
  state = if has_id best a then best_available else settled a.state;
}

unfoldable pub retain_partial : Option Artifact → List Artifact → Kept
retain_partial best artifacts =
    let drop = λ (a : Artifact). is_image a && not (has_id best a) in
    record {
      artifacts = map (mark_partial best) (filter (λ a. not (drop a)) artifacts);
      deleted = filter drop artifacts;
    }
