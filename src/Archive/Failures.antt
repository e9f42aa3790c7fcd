-- ===== src/Archive/Failures.antt =====
-- What the worker records beside the archive: files that could not be archived, sources that were,
-- errors of an execution, and that a cancellation was sent (`_record_persistence_failure`,
-- `_record_archived_source_reference`, `_clear_persistence_failure`, `_record_execution_error`,
-- `_record_reconciliation_error`, `_ensure_cancel_sent` of backend/app/services/queue_worker.py).
-- The lists of failures are lists wherever the worker wrote them; any other stored value counts as
-- an empty list.
use comfyui_image_frontend.Prelude.{
  ℕ, String, Bool, true, false, not, ◌&&◌, ◌||◌, Option, none, some, List, [], ◌∷◌, ◌++◌, any,
  filter, length, ◌==◌, str_eq, if◌then◌else◌,
}
use comfyui_image_frontend.Prelude.Int.{pos}
use comfyui_image_frontend.Json.{
  Value, null, bool, int, str, list, dict, nil, Fields, end, field, from_items, get_or, put, remove,
  value_eq,
}
use comfyui_image_frontend.Text.{one_of}
use comfyui_image_frontend.Database.{Generation, GenerationEvent, generation_event}
use comfyui_image_frontend.Worker.History.{list_items}
use comfyui_image_frontend.Archive.{NativeFileOutput, lookup, lookup_or}

-- The exception that stopped an archiving: its class, and the HTTP status of its response, if it has
-- one.
pub record Failure : Type 0 where
  pub class_name : String
  pub status_code : Option ℕ

abbrev text_or_null : Option String → Value
text_or_null none = null
text_or_null (some t) = str t

-- _persistence_failure_key
abbrev pub persistence_failure_key : NativeFileOutput → Fields
persistence_failure_key f = field "output_id" (str f.output_id) (
    field "node_id" (str f.node_id) (
      field "batch_index" (int (pos f.batch_index)) (
        field "filename" (text_or_null (lookup "filename" f.reference)) (
          field "subfolder" (str (lookup_or "subfolder" f.reference ""))
            (field "type" (str (lookup_or "type" f.reference "output")) end)))))

-- `all(value.get(key) == expected for key, expected in ...)`
unfoldable pub agrees : Fields → Fields → Bool
unfolding value_eq
agrees end m = true
agrees (field k v r) m = value_eq (get_or k m null) v && agrees r m

abbrev pub matches : Fields → Value → Bool
matches key (dict m) = agrees key m
matches key _ = false

-- _failure_status
abbrev failure_status : Option ℕ → Fields
failure_status none = end
failure_status (some n) = field "status" (int (pos n)) end

-- `{**first, **second}`
abbrev merged : Fields → Fields → Fields
merged m end = m
merged m (field k v r) = merged (put k v m) r

abbrev pub failure_entry : NativeFileOutput → Failure → Value
failure_entry f e = dict (
    merged (persistence_failure_key f)
      (field "error" (str e.class_name) (failure_status e.status_code)))

-- _artifact_requires_persistence
abbrev pub requires_persistence : NativeFileOutput → Bool
requires_persistence f =
    f.declared
    && str_eq f.role "final"
    && one_of ("input" ∷ "output" ∷ []) (lookup_or "type" f.reference "output")

abbrev pub diagnostic_key : Bool → String
diagnostic_key true = "artifact_persistence_failures"
diagnostic_key false = "artifact_persistence_warnings"

abbrev pub listed : String → Fields → List Value
listed k m = list_items (get_or k m (list nil))

-- The entries about other files
abbrev pub others : NativeFileOutput → List Value → List Value
others f = filter (λ v. not (matches (persistence_failure_key f) v))

unfoldable pub add_failure : NativeFileOutput → Failure → Fields → Fields
unfolding agrees
add_failure f e m =
    let k = diagnostic_key (requires_persistence f) in
    put k (list (from_items (others f (listed k m) ++ failure_entry f e ∷ []))) m

abbrev failure_message : Bool → String
failure_message true = "A required output could not be archived."
failure_message false =
    "An optional output could not be archived; its native reference was retained."

-- _record_persistence_failure
unfoldable pub record_persistence_failure :
    ℕ → NativeFileOutput → Failure → Generation → Generation × GenerationEvent
unfolding add_failure generation_event
record_persistence_failure now f e g =
    let g' : Generation = record g {
      internal_diagnostics_json = add_failure f e g.internal_diagnostics_json;
    } in
    (
      g',
      generation_event now g' "artifact.persistence_failed" (
          field "output_id" (str f.output_id) (
            field "required" (bool (requires_persistence f))
              (field "message" (str (failure_message (requires_persistence f))) end))),
    )

abbrev pub is_dict : Value → Bool
is_dict (dict m) = true
is_dict _ = false

-- _cleanup_reference
abbrev pub cleanup_reference : List (String × String) → Option Fields
cleanup_reference reference = elim (lookup "filename" reference) [
  | none ↦ none
  | some filename ↦
      let type = lookup_or "type" reference "output" in
      if str_eq filename "" || not (one_of ("output" ∷ "temp" ∷ []) type)
      then none
      else some (
          field "filename" (str filename) (
            field "subfolder" (str (lookup_or "subfolder" reference ""))
              (field "type" (str type) end)))
]

abbrev pub archived_sources : String
archived_sources = "archived_comfyui_sources"

-- _record_archived_source_reference
unfoldable pub record_archived_source_reference : NativeFileOutput → Generation → Generation
unfolding agrees
record_archived_source_reference f g = elim (cleanup_reference f.reference) [
  | none ↦ g
  | some reference ↦
      let archived : List Value =
        filter is_dict (listed archived_sources g.internal_diagnostics_json) in
      if any (matches reference) archived then g else record g {
        internal_diagnostics_json = put "comfyui_source_cleanup_complete" (bool false) (
            put archived_sources (list (from_items (archived ++ dict reference ∷ [])))
              g.internal_diagnostics_json);
      }
]

abbrev pub put_rest : String → List Value → Fields → Fields
put_rest k [] m = remove k m
put_rest k (v ∷ vs) m = put k (list (from_items (v ∷ vs))) m

-- One of the two lists of failures
unfoldable pub clear_list : NativeFileOutput → String → Fields → Fields
unfolding agrees
clear_list f k m =
    let remaining = others f (listed k m) in
    if length remaining == length (listed k m) then m else put_rest k remaining m

unfoldable pub clear_failures : NativeFileOutput → Fields → Fields
unfolding clear_list
clear_failures f m = clear_list f (diagnostic_key false) (clear_list f (diagnostic_key true) m)

-- _clear_persistence_failure
unfoldable pub clear_persistence_failure : NativeFileOutput → Generation → Generation
unfolding clear_failures
clear_persistence_failure f g = record g {
  internal_diagnostics_json = clear_failures f g.internal_diagnostics_json;
}
