-- ===== src/Examples/Rows.antt =====
-- Rows of the tables, for the examples.
use comfyui_image_frontend.Prelude.{String, ℕ, true, false, none, some, [], ◌∷◌}
use comfyui_image_frontend.Prelude.Int.{pos}
use comfyui_image_frontend.Json.{str, int, list, dict, nil, cons, Fields, end, field}
use comfyui_image_frontend.Status.{queued, running, cancel_requested}
use comfyui_image_frontend.Database.{Generation, Artifact, provisional}
use comfyui_image_frontend.Finalize.Record.{NormalizedHistory}
use comfyui_image_frontend.Scheduler.Pool.{Pool, WorkflowProfile}
use comfyui_image_frontend.Scheduler.Activity.{system_owner_id}
use comfyui_image_frontend.Scheduler.Claim.{Queue}
use comfyui_image_frontend.Worker.Recovery.{Runtimes}

abbrev pub accepted_row : String → String → ℕ → Generation
accepted_row i owner seq = record {
  id = i;
  owner_id = owner;
  collection_id = none;
  status = queued;
  queue_seq = seq;
  auto_cycle_id = none;
  workflow_profile_id = "profile";
  workflow_version = "v1";
  ui_graph_sha256 = "ui";
  api_graph_sha256 = "api";
  contract_sha256 = "contract";
  comfyui_prompt_id = none;
  comfyui_instance_id = none;
  comfyui_instance_label = none;
  submitted_graph_json = none;
  submitted_graph_sha256 = none;
  current_stage_id = none;
  current_stage_label = none;
  execution_timing_json = none;
  progress_json = none;
  best_available_artifact_id = none;
  canonical_artifact_id = none;
  artifact_count = 0;
  final_artifact_count = 0;
  error_code = none;
  error_message = none;
  internal_diagnostics_json = end;
  raw_history_json = end;
  declared_outputs_json = end;
  unmapped_outputs_json = end;
  comfyui_status_json = end;
  result_warnings_json = [];
  result_errors_json = [];
  cancel_requested_at = none;
  pending_delete = false;
  dispatched_at = none;
  started_at = none;
  completed_at = none;
}

abbrev pub ann_row : Generation
ann_row = accepted_row "g1" "ann" 1

abbrev pub bob_row : Generation
bob_row = accepted_row "g2" "bob" 2

-- A row whose prompt runs on the first worker.
abbrev pub running_row : Generation
running_row = record ann_row {
  status = running;
  comfyui_instance_id = some "gpu0";
  comfyui_prompt_id = some "p1";
}

-- Every recorded failure is a source that ComfyUI no longer has.
abbrev pub absent_failures : Fields
absent_failures =
    field "artifact_persistence_failures"
      (list (
        cons
          (dict (field "error_type" (str "HTTPStatusError") (field "status" (int (pos 404)) end)))
          nil))
      end

abbrev pub absent_row : Generation
absent_row = record running_row { internal_diagnostics_json = absent_failures }

abbrev pub doomed_row : Generation
doomed_row = record absent_row { status = cancel_requested }

abbrev pub history : NormalizedHistory
history = record {
  declared_outputs = end;
  unmapped_outputs = end;
  status = end;
  errors = [];
  warnings = [];
}

abbrev pub preview : Artifact
preview = record {
  id = "a1";
  generation_id = "g1";
  owner_id = "ann";
  output_id = "out_preview";
  role = "preview";
  kind = "image";
  state = provisional;
  sequence = 2000;
  batch_index = 0;
  parent_artifact_id = none;
  storage_path = "g1/a1.png";
  thumbnail_path = none;
  mime_type = "image/png";
  byte_size = 900;
  width = some 64;
  height = some 64;
  sha256 = "5e1";
  source_node_id = some "7";
  source_filename = some "a1.png";
  source_subfolder = none;
  source_type = some "temp";
  usable_on_cancel = true;
  usable_on_failure = true;
  canonical = false;
  best_available = false;
  emitted_at = none;
  available_at = 10;
}

abbrev pub final_image : Artifact
final_image = record preview {
  id = "a2";
  output_id = "out_final";
  role = "final";
  sequence = 4000;
  storage_path = "g1/a2.png";
  sha256 = "5e2";
  source_filename = some "a2.png";
  source_type = some "output";
}

abbrev pub profile : WorkflowProfile
profile = record {
  id = "profile";
  instance_id = some "gpu0";
  source_id = some "source";
  publication_id = some "v1";
  ui_graph_sha256 = "ui";
  api_graph_sha256 = "api";
  manifest_sha256 = some "contract";
}

abbrev pub pool : Pool
pool = record { member_ids = "gpu0" ∷ []; primary_id = "gpu0"; profiles = profile ∷ [] }

abbrev pub queue : Queue
queue = record {
  generations = ann_row ∷ bob_row ∷ [];
  prompt_runs =
      record {
        id = "r1";
        owner_id = "ann";
        instance_id = "gpu0";
        status = "queued";
        queue_seq = 0;
        automatic = true;
      }
      ∷ [];
  last_user_id = some "bob";
  reels = record { config = none; entries = [] };
}

-- A reel is rendered while Ann and Bob wait.
abbrev pub reel_row : Generation
reel_row = record (accepted_row "g9" system_owner_id 0) {
  status = running;
  comfyui_instance_id = some "gpu0";
  comfyui_prompt_id = some "p9";
}

abbrev pub queue_with_reel : Queue
queue_with_reel = record queue {
  generations = reel_row ∷ ann_row ∷ bob_row ∷ [];
  reels = record {
    config = some (record { last_activity_at = none });
    entries = record { state = "running"; generation_id = some "g9" } ∷ [];
  };
}

abbrev pub runtimes : Runtimes
runtimes = record { configured_ids = "gpu0" ∷ []; primary_id = "gpu0"; releasable = λ g. true }
