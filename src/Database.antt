-- ===== src/Database.antt =====
-- The rows that the generation queue reads and writes (backend/app/models.py) and the session's
-- operations on them. Columns that are set when a generation is accepted and read nowhere below
-- (its compiled graph, its controls, its provenance) are left out of the row.
use comfyui_image_frontend.Prelude.{
  ℕ, String, Bool, Option, none, some, List, [], ◌∷◌, str_eq, if◌then◌else◌,
}
use comfyui_image_frontend.Json.{Value, Fields}
use comfyui_image_frontend.Status.{GenerationStatus}

pub record Generation : Type 0 where
  pub id : String
  pub owner_id : String
  pub collection_id : Option String
  pub status : GenerationStatus
  pub queue_seq : ℕ
  pub auto_cycle_id : Option String
  pub workflow_profile_id : String
  pub workflow_version : String
  pub ui_graph_sha256 : String
  pub api_graph_sha256 : String
  pub contract_sha256 : String
  pub comfyui_prompt_id : Option String
  pub comfyui_instance_id : Option String
  pub comfyui_instance_label : Option String
  pub submitted_graph_json : Option Value
  pub submitted_graph_sha256 : Option String
  pub current_stage_id : Option String
  pub current_stage_label : Option String
  pub execution_timing_json : Option Value
  pub progress_json : Option Value
  pub best_available_artifact_id : Option String
  pub canonical_artifact_id : Option String
  pub artifact_count : ℕ
  pub final_artifact_count : ℕ
  pub error_code : Option String
  pub error_message : Option String
  pub internal_diagnostics_json : Fields
  pub raw_history_json : Fields
  pub declared_outputs_json : Fields
  pub unmapped_outputs_json : Fields
  pub comfyui_status_json : Fields
  pub result_warnings_json : List Value
  pub result_errors_json : List Value
  pub cancel_requested_at : Option ℕ
  pub pending_delete : Bool
  pub dispatched_at : Option ℕ
  pub started_at : Option ℕ
  pub completed_at : Option ℕ

pub data ArtifactState : Type 0 where
  provisional superseded best_available final partial : ArtifactState

pub record Artifact : Type 0 where
  pub id : String
  pub generation_id : String
  pub owner_id : String
  pub output_id : String
  pub role : String
  pub kind : String
  pub state : ArtifactState
  pub sequence : ℕ
  pub batch_index : ℕ
  pub parent_artifact_id : Option String
  pub storage_path : String
  pub thumbnail_path : Option String
  pub mime_type : String
  pub byte_size : ℕ
  pub width : Option ℕ
  pub height : Option ℕ
  pub sha256 : String
  pub source_node_id : Option String
  pub source_filename : Option String
  pub source_subfolder : Option String
  pub source_type : Option String
  pub usable_on_cancel : Bool
  pub usable_on_failure : Bool
  pub canonical : Bool
  pub best_available : Bool
  pub emitted_at : Option ℕ
  pub available_at : ℕ

-- Its id is its place in the table, counted from 1.
pub record GenerationEvent : Type 0 where
  pub generation_id : String
  pub owner_id : String
  pub event_type : String
  pub payload_json : Fields
  pub created_at : ℕ

-- add_generation_event
unfoldable pub generation_event : ℕ → Generation → String → Fields → GenerationEvent
generation_event now g event_type payload = record {
  generation_id = g.id;
  owner_id = g.owner_id;
  event_type = event_type;
  payload_json = payload;
  created_at = now;
}

-- `session.get(Generation, id)`
unfoldable pub get_generation : String → List Generation → Option Generation
get_generation i [] = none
get_generation i (g ∷ gs) = if str_eq g.id i then some g else get_generation i gs

-- The row with this id is written back.
unfoldable pub write_generation : Generation → List Generation → List Generation
write_generation h [] = []
write_generation h (g ∷ gs) = if str_eq g.id h.id then h ∷ gs else g ∷ write_generation h gs

-- `session.delete(generation)`
unfoldable pub delete_generation : String → List Generation → List Generation
delete_generation i [] = []
delete_generation i (g ∷ gs) = if str_eq g.id i then gs else g ∷ delete_generation i gs
