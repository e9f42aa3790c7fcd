-- ===== src/Examples/Archiving.antt =====
-- Files that are archived, or fail to be.
use mathlib.Core.List.{Memᴰ}
use mathlib.Core.List.Memᴰ.{not-nil}
use comfyui_image_frontend.Prelude.{
  ◌≡◌, ◌≢◌, refl, sym, ap, ◌∙◌, subst, String, true, false, none, some, List, [], ◌∷◌, map, str_eq,
  str_eq_iff,
}
use comfyui_image_frontend.Json.{end}
use comfyui_image_frontend.Database.{Generation, GenerationEvent, Artifact}
use comfyui_image_frontend.Status.{is_terminal, cancel_requested}
use comfyui_image_frontend.Worker.Reports.{record_execution_error, record_reconciliation_error}
use comfyui_image_frontend.Worker.Reports.Sent.{worker_sends, worker_sends_lem}
use comfyui_image_frontend.Worker.Reports.Overridden.{AgreesOnErrors, success-overrides_errors}
use comfyui_image_frontend.Artifacts.{is_image}
use comfyui_image_frontend.Worker.History.{success}
use comfyui_image_frontend.Finalize.Images.{Names}
use comfyui_image_frontend.Finalize.Commit.{settle, commit_finalization}
use comfyui_image_frontend.Finalize.Record.{record_history}
use comfyui_image_frontend.Archive.{
  NativeFileOutput, StoredImage, declare, Archived, current_image, supersede, new_artifact,
  retain_artifact, insert_artifact,
}
use comfyui_image_frontend.Archive.Stage.{IsArchived}
use comfyui_image_frontend.Archive.Images.{insert_artifact-IsArchived}
use comfyui_image_frontend.Archive.Stale.{
  InPlaceOf, insert_artifact-loses_best, insert_artifact-Names,
}
use comfyui_image_frontend.Archive.Failures.{
  Failure, record_persistence_failure, clear_persistence_failure,
}
use comfyui_image_frontend.Archive.Cleared.{IsCleared, clear-record}
use comfyui_image_frontend.Archive.Withheld.{Withheld, failure-withholds_success}
use comfyui_image_frontend.Examples.Rows.{running_row, preview, history}

abbrev pub final_file : NativeFileOutput
final_file = record {
  node_id = "9";
  output_id = "out_final";
  role = "final";
  kind = "image";
  batch_index = 1;
  reference = ("filename", "r.png") ∷ ("type", "output") ∷ [];
  declared = true;
  sequence = 0;
}

abbrev stored : StoredImage
stored = record {
  relative_path = "g1/n.png";
  thumbnail_path = none;
  mime_type = "image/png";
  byte_size = 1200;
  width = 64;
  height = 64;
  sha256 = "5e9";
}

-- Two images of one batch, the first of which is missing; the row names the earlier one.
abbrev second_image : Artifact
second_image = record preview {
  id = "b1";
  output_id = "out_final";
  role = "final";
  sequence = 4000;
  batch_index = 1;
  emitted_at = some 5;
}

abbrev third_image : Artifact
third_image = record second_image {
  id = "b2";
  batch_index = 2;
  emitted_at = some 6;
  sha256 = "5e7";
}

abbrev batch : List Artifact
batch = second_image ∷ third_image ∷ []

abbrev batch_row : Generation
batch_row = record running_row { best_available_artifact_id = some "b1"; artifact_count = 2 }

abbrev archive : Generation → List Artifact → Archived
archive g xs =
    retain_artifact 9 g (map (supersede (declare final_file)) xs) (current_image xs)
      (new_artifact 9 "n1" (declare final_file) stored g xs)

ids_apart : (s t : String) → str_eq s t ≡ false → s ≢ t
ids_apart s t e h = cc ((str_eq_iff s t).1 h)

only : (xs : List Artifact) (a b : Artifact) → xs ≡ b ∷ [] → Memᴰ a xs → a ≡ b
only xs a b e m = at (subst (Memᴰ a) e m)
  where
    at : Memᴰ a (b ∷ []) → a ≡ b
    at (Memᴰ.head q) = q
    at (Memᴰ.tail n) = absurd (not-nil n)

abbrev one_row : Generation
one_row = record running_row { artifact_count = 1 }

one_row-IsArchived : IsArchived one_row (preview ∷ [])
one_row-IsArchived = record {
  one_stage = λ a b m n i j.
      ap (λ (a : Artifact). a.sequence) (only _ a preview refl m ∙ sym (only _ b preview refl n));
  one_each = λ a b m n i j s. only _ a preview refl m ∙ sym (only _ b preview refl n);
  ids = λ a b m n e. only _ a preview refl m ∙ sym (only _ b preview refl n);
  counted = refl;
}

insert_artifact-IsArchived_example :
    IsArchived
      (archive one_row (preview ∷ [])).generation
      (archive one_row (preview ∷ [])).artifacts
    × ((b : Artifact)
        → Memᴰ b (archive one_row (preview ∷ [])).artifacts
        → str_eq "image" "image" ≡ true
        → is_image b ≡ true
        → b.sequence ≡ 4000)
unfolding declare insert_artifact current_image retain_artifact
insert_artifact-IsArchived_example =
    insert_artifact-IsArchived 9 "n1" (declare final_file) stored one_row (preview ∷ [])
      (archive one_row (preview ∷ [])) one_row-IsArchived
      (λ b m e.
        ids_apart preview.id "n1" refl
          (ap (λ (a : Artifact). a.id) (sym (only _ b preview refl m)) ∙ e))
      refl

batch-place : (b : Artifact) → Memᴰ b batch → b.id ≡ "b1" → InPlaceOf (declare final_file) b
unfolding declare
batch-place b (Memᴰ.head q) e =
    subst (InPlaceOf (declare final_file)) (sym q)
      (record { image = refl; stage = refl; output = refl; index = refl })
batch-place b (Memᴰ.tail n) e = absurd (
    ids_apart third_image.id "b1" refl
      (ap (λ (a : Artifact). a.id) (sym (only _ b third_image refl n)) ∙ e))

insert_artifact-loses_best_example :
    ((archive batch_row batch).generation.best_available_artifact_id ≡ some "b1")
    × ((b : Artifact) → Memᴰ b (archive batch_row batch).artifacts → b.id ≢ "b1")
unfolding declare insert_artifact current_image
insert_artifact-loses_best_example =
    insert_artifact-loses_best 9 "n1" (declare final_file) stored batch_row batch
      (archive batch_row batch) third_image "b1" refl refl refl
      (record { stage = refl; elsewhere = refl; behind = refl }) refl batch-place
      (ids_apart "n1" "b1" refl)

abbrev shown_row : Generation
shown_row = record batch_row { best_available_artifact_id = some "b2" }

insert_artifact-Names_example :
    Names is_image
      (archive shown_row batch).artifacts
      (archive shown_row batch).generation.best_available_artifact_id
unfolding declare insert_artifact current_image
insert_artifact-Names_example =
    insert_artifact-Names 9 "n1" (declare final_file) stored shown_row batch
      (archive shown_row batch) refl refl

abbrev pub gone : Failure
gone = record { class_name = "HTTPStatusError"; status_code = some 404 }

clear-record_example :
    IsCleared final_file running_row.internal_diagnostics_json
      (clear_persistence_failure final_file
        (record_persistence_failure 9 final_file gone running_row).0).internal_diagnostics_json
clear-record_example = clear-record 9 final_file gone running_row

abbrev failing_row : Generation
failing_row = (record_persistence_failure 9 final_file gone running_row).0

failure-withholds_success_example :
    Withheld
      (settle 11 end success
        (preview ∷ [])
        (record_history end history success failing_row)).generation.status
unfolding commit_finalization record_persistence_failure is_terminal
failure-withholds_success_example =
    failure-withholds_success 9 final_file gone running_row refl 11 end history (preview ∷ [])
      failing_row
      (settle 11 end success (preview ∷ []) (record_history end history success failing_row)) refl
      refl

abbrev cancelled_row : Generation
cancelled_row = record running_row { status = cancel_requested }

-- The submission's message is taken, and one more.
worker_sends_lem_example :
    worker_sends (λ now. "") 9 "p1" true (false ∷ true ∷ true ∷ []) cancelled_row ≡ 2
worker_sends_lem_example =
    worker_sends_lem (λ now. "") 9 "p1" true (false ∷ true ∷ true ∷ []) cancelled_row

success-overrides_errors_example :
    AgreesOnErrors
      (record_history end history success (record_execution_error 9 end running_row).0)
      (record_history end history success running_row)
    × ((h : Generation) (event : GenerationEvent)
        → record_reconciliation_error 9 "comfyui_unreachable" running_row ≡ some (h, event)
        → AgreesOnErrors
            (record_history end history success h)
            (record_history end history success running_row))
success-overrides_errors_example =
    success-overrides_errors 9 end "comfyui_unreachable" end history running_row
