-- ===== src/Archive.antt =====
-- The archiving of what a runtime produces: `_insert_artifact` and the declaration that
-- `_persist_native_file` passes to it (backend/app/services/queue_worker.py; NativeFileOutput of
-- backend/app/domain/results.py, StoredImage of backend/app/services/assets.py).
pub mod Cleared
pub mod Failures
pub mod Images
pub mod Stage
pub mod Stale
pub mod Withheld
use comfyui_image_frontend.Prelude.{
  ℕ, zero, suc, String, Bool, true, false, not, ◌&&◌, ◌||◌, Option, none, some, List, [], ◌∷◌, ◌++◌,
  map, any, filter, length, concat, ◌==◌, ltb, str_eq, if◌then◌else◌,
}
use comfyui_image_frontend.Prelude.Int.{pos}
use comfyui_image_frontend.Json.{Value, null, int, str, dict, Fields, end, field}
use comfyui_image_frontend.Status.{value}
use comfyui_image_frontend.Database.{
  Generation, Artifact, ArtifactState, provisional, superseded, best_available, final, partial,
  GenerationEvent, generation_event,
}
use comfyui_image_frontend.Artifacts.{
  flag, emitted_score, best_of, is_image, sort, max_from, lex_lt, artifact_sequence,
  is_better_presentation_candidate,
}
use comfyui_image_frontend.Finalize.Retention.{pruned, id_of}

-- A reference is the texts by which ComfyUI names a file.
pub record NativeFileOutput : Type 0 where
  pub node_id : String
  pub output_id : String
  pub role : String
  pub kind : String
  pub batch_index : ℕ
  pub reference : List (String × String)
  pub declared : Bool
  pub sequence : ℕ

pub record StoredImage : Type 0 where
  pub relative_path : String
  pub thumbnail_path : Option String
  pub mime_type : String
  pub byte_size : ℕ
  pub width : ℕ
  pub height : ℕ
  pub sha256 : String

-- `reference.get(key)`
abbrev pub lookup : String → List (String × String) → Option String
lookup k [] = none
lookup k ((j, t) ∷ rest) = if str_eq j k then some t else lookup k rest

-- `reference.get(key, default)`
abbrev pub lookup_or : String → List (String × String) → String → String
lookup_or k m d = elim (lookup k m) [ none ↦ d | some t ↦ t ]

-- The declaration with the place of the file: what an insertion is given.
pub record Declaration : Type 0 where
  pub output_id : String
  pub role : String
  pub kind : String
  pub resolved_sequence : ℕ
  pub supersedes : List String
  pub usable_on_cancel : Bool
  pub usable_on_failure : Option Bool
  pub node_id : String
  pub batch_index : ℕ
  pub source_filename : Option String
  pub source_subfolder : Option String
  pub source_type : Option String

abbrev nonempty : Option String → Option String
nonempty none = none
nonempty (some t) = if str_eq t "" then none else some t

unfoldable pub declare : NativeFileOutput → Declaration
unfolding artifact_sequence
declare f = record {
  output_id = f.output_id;
  role = f.role;
  kind = f.kind;
  resolved_sequence = artifact_sequence f.role f.sequence;
  supersedes = [];
  usable_on_cancel = true;
  usable_on_failure = some true;
  node_id = f.node_id;
  batch_index = f.batch_index;
  source_filename = lookup "filename" f.reference;
  source_subfolder = nonempty (lookup "subfolder" f.reference);
  source_type = some (lookup_or "type" f.reference "output");
}

-- The key of the maximum among the images that are there.
abbrev pub archive_key : Artifact → List ℕ
archive_key a = a.sequence ∷ flag (a.batch_index == 0) ∷ emitted_score a.emitted_at ∷ []

unfoldable pub current_image : List Artifact → Option Artifact
unfolding max_from lex_lt
current_image artifacts = best_of archive_key (filter is_image artifacts)

abbrev pub is_duplicate : Declaration → StoredImage → Artifact → Bool
is_duplicate d stored a =
    str_eq a.output_id d.output_id
    && (a.batch_index == d.batch_index)
    && str_eq a.sha256 stored.sha256

-- An event from a stage that the archive has left.
abbrev pub is_outdated : Declaration → Option Artifact → Bool
is_outdated d none = false
is_outdated d (some current) = str_eq d.kind "image" && ltb d.resolved_sequence current.sequence

abbrev is_superseded : Declaration → Artifact → Bool
is_superseded d a = any (str_eq a.output_id) d.supersedes

-- `ORDER BY sequence DESC, available_at DESC`
abbrev latest_first : Artifact → Artifact → Bool
latest_first a b =
    ltb b.sequence a.sequence
    || (a.sequence == b.sequence) && not (ltb a.available_at b.available_at)

abbrev first_id : List Artifact → Option String
first_id [] = none
first_id (a ∷ rest) = some a.id

unfoldable pub superseded_parent : Declaration → List Artifact → Option String
unfolding sort
superseded_parent d artifacts = first_id (sort latest_first (filter (is_superseded d) artifacts))

abbrev supersede_state : Bool → ArtifactState → ArtifactState
supersede_state true provisional = superseded
supersede_state _ s = s

abbrev pub supersede : Declaration → Artifact → Artifact
supersede d a = record a { state = supersede_state (is_superseded d a) a.state }

abbrev or_none : ℕ → Option ℕ
or_none zero = none
or_none (suc n) = some (suc n)

abbrev failure_use : Declaration → Bool
failure_use d = elim d.usable_on_failure [ none ↦ d.usable_on_cancel | some b ↦ b ]

-- The new row, with the id that it is given at this time
unfoldable pub new_artifact :
    ℕ → String → Declaration → StoredImage → Generation → List Artifact → Artifact
unfolding superseded_parent
new_artifact now new_id d stored g artifacts = record {
  id = new_id;
  generation_id = g.id;
  owner_id = g.owner_id;
  output_id = d.output_id;
  role = d.role;
  kind = d.kind;
  state = provisional;
  sequence = d.resolved_sequence;
  batch_index = d.batch_index;
  parent_artifact_id = superseded_parent d artifacts;
  storage_path = stored.relative_path;
  thumbnail_path = stored.thumbnail_path;
  mime_type = if str_eq d.kind "text" then "text/plain; charset=utf-8" else stored.mime_type;
  byte_size = stored.byte_size;
  width = or_none stored.width;
  height = or_none stored.height;
  sha256 = stored.sha256;
  source_node_id = some d.node_id;
  source_filename = d.source_filename;
  source_subfolder = d.source_subfolder;
  source_type = d.source_type;
  usable_on_cancel = d.usable_on_cancel;
  usable_on_failure = failure_use d;
  canonical = false;
  best_available = false;
  emitted_at = some now;
  available_at = now;
}

abbrev pub same_slot : Artifact → Artifact → Bool
same_slot a b =
    (b.sequence == a.sequence) && str_eq b.output_id a.output_id && (b.batch_index == a.batch_index)

-- Which images the new image `a` replaces.
unfoldable pub replaces : Artifact → Option Artifact → Artifact → Bool
replaces a none b = false
replaces a (some current) b =
    is_image a
    && is_image b
    && (if ltb current.sequence a.sequence then ltb b.sequence a.sequence else same_slot a b)

-- The rows that are left, and the new one
abbrev pub kept_rows : List Artifact → Option Artifact → Artifact → List Artifact
kept_rows rows current a = filter (λ b. not (replaces a current b)) rows ++ a ∷ []

-- The image that stands for the generation once `a` is there.
unfoldable pub best_after : Artifact → Option Artifact → Option String → Option String
unfolding is_better_presentation_candidate replaces
best_after a none best = if is_image a then some a.id else best
best_after a (some current) best =
    if is_image a
      && (is_better_presentation_candidate a current
          || (not (ltb current.sequence a.sequence) && replaces a (some current) current))
    then some a.id
    else best

abbrev state_value : ArtifactState → String
state_value provisional = "provisional"
state_value superseded = "superseded"
state_value best_available = "best_available"
state_value final = "final"
state_value partial = "partial"

abbrev thumbnail_url : Artifact → Option String → Value
thumbnail_url a none = null
thumbnail_url a (some t) =
    if str_eq t "" then null else str (concat ("/api/artifacts/" ∷ a.id ∷ "/thumbnail" ∷ []))

abbrev text_or_null : Option String → Value
text_or_null none = null
text_or_null (some t) = str t

-- The payload of `artifact.available`
unfoldable pub available_payload : Generation → Artifact → Fields
unfolding value
available_payload g a =
    field "artifact"
      (dict (
        field "id" (str a.id) (
          field "output_id" (str a.output_id) (
            field "role" (str a.role) (
              field "state" (str (state_value a.state)) (
                field "sequence" (int (pos a.sequence)) (
                  field "batch_index" (int (pos a.batch_index)) (
                    field "content_url" (str (concat ("/api/artifacts/" ∷ a.id ∷ "/content" ∷ [])))
                      (field "thumbnail_url" (thumbnail_url a a.thumbnail_path) end)))))))))
      (field "status" (str (value g.status))
        (field "best_available_artifact_id" (text_or_null g.best_available_artifact_id) end))

-- What an insertion commits: the row, the rows of its artifacts, the event, and the paths whose files
-- are removed.
pub record Archived : Type 0 where
  pub generation : Generation
  pub artifacts : List Artifact
  pub event : GenerationEvent
  pub pruned_paths : List String

-- The commit, where the file is retained.
unfoldable pub retain_artifact :
    ℕ → Generation → List Artifact → Option Artifact → Artifact → Archived
unfolding replaces best_after available_payload generation_event
retain_artifact now g rows current a =
    let kept : List Artifact = kept_rows rows current a in
    let g' : Generation = record g {
      best_available_artifact_id = best_after a current g.best_available_artifact_id;
      artifact_count = length kept;
    } in
    record {
      generation = g';
      artifacts = kept;
      event = generation_event now g' "artifact.available" (available_payload g' a);
      pruned_paths = pruned (filter (replaces a current) rows);
    }

-- `_insert_artifact` on a row and its artifacts; `none` where the file is not retained.
unfoldable pub insert_artifact :
    ℕ → String → Declaration → StoredImage → Generation → List Artifact → Option Archived
unfolding current_image new_artifact retain_artifact
insert_artifact now new_id d stored g artifacts =
    let current = current_image artifacts in
    if any (is_duplicate d stored) artifacts || is_outdated d current
    then none
    else some (
        retain_artifact now g (map (supersede d) artifacts) current
          (new_artifact now new_id d stored g artifacts))
