-- ===== src/Examples.antt =====
-- The examples: each theorem at concrete rows, and runs of the code.
mod Rows
mod People
mod Access
mod Archiving
mod Judging
mod Estimating
mod Delivering
mod Admitting
mod Living
mod Folders
use mathlib.Core.List.{Memᴰ}
use comfyui_image_frontend.Prelude.{
  ℕ, ◌<◌, ◌≤◌, arith, ◌≡◌, refl, sym, ap, ◌∙◌, ◌↔◌, ◌⊎◌, inl, Bool, true, false, not, Option, none,
  some, List, [], ◌∷◌, map, filter, All, length, String, str_eq_iff,
}
use comfyui_image_frontend.Json.{double_eq, str, bool, list, dict, nil, cons, field, end}
use comfyui_image_frontend.Status.{
  GenerationStatus, queued, cancel_requested, is_active, is_terminal, running, succeeded,
}
use comfyui_image_frontend.Status.Laws.{Allowed, Walk, Walk-laws}
use comfyui_image_frontend.Database.{Generation, Artifact}
use comfyui_image_frontend.Artifacts.{best_native_image, sort, newest_first}
use comfyui_image_frontend.Artifacts.Best.{Chosen, best_native_image_lem}
use comfyui_image_frontend.Worker.History.{
  success, cancelled, failed, history_terminal, sources_were_absent,
}
use comfyui_image_frontend.Worker.Recovery.{in_flight, prepare_startup_recovery}
use comfyui_image_frontend.Worker.Restart.{IsRecovered, prepare_startup_recovery_lem}
use comfyui_image_frontend.Finalize.Commit.{Committed, settle, commit_finalization}
use comfyui_image_frontend.Finalize.Record.{record_history}
use comfyui_image_frontend.Finalize.Outcome.{marker, IsRequeued, ResultOf}
use comfyui_image_frontend.Finalize.Retry.{
  commit_finalization_settles, commit_finalization-Allowed, absent_sources_lose_cancellation,
}
use comfyui_image_frontend.Finalize.Images.{Distinct}
use comfyui_image_frontend.Finalize.Presented.{IsPresented, commit_finalization-IsPresented}
use comfyui_image_frontend.Worker.Transactions.{dispatch}
use comfyui_image_frontend.Scheduler.Turn.{next_owner, owner_order}
use comfyui_image_frontend.Scheduler.Claim.{Job, Claim, image, take_job, make_way, claim_next}
use comfyui_image_frontend.Scheduler.Served.{Waits}
use comfyui_image_frontend.Scheduler.Claimed.{IsServed, claim_next-IsServed, claim_next-idle}
use comfyui_image_frontend.Scheduler.Activity.{is_background, is_foreground}
use comfyui_image_frontend.Scheduler.Dispatch.{
  InstanceConfig, load, config_of, queue_claim, dispatch_iteration,
}
use comfyui_image_frontend.Scheduler.Capacity.{dispatch_iteration-le}
use comfyui_image_frontend.Scheduler.Yielding.{Yields, foreground_first}
use comfyui_image_frontend.Examples.Rows.{
  ann_row, running_row, absent_row, doomed_row, history, preview, final_image, pool, queue,
  queue_with_reel, runtimes,
}

abbrev images : List Artifact
images = preview ∷ final_image ∷ []

ids_apart : ¬ (preview.id ≡ final_image.id)
ids_apart e = cc ((str_eq_iff preview.id final_image.id).1 e)

abbrev artifact_id : Artifact → String
artifact_id a = a.id

images-Distinct : Distinct images
images-Distinct a b (Memᴰ.head p) (Memᴰ.head q) e = p ∙ sym q
images-Distinct a b (Memᴰ.head p) (Memᴰ.tail (Memᴰ.head q)) e =
    absurd (ids_apart (sym (ap artifact_id p) ∙ e ∙ ap artifact_id q))
images-Distinct a b (Memᴰ.tail (Memᴰ.head p)) (Memᴰ.head q) e =
    absurd (ids_apart (sym (ap artifact_id q) ∙ sym e ∙ ap artifact_id p))
images-Distinct a b (Memᴰ.tail (Memᴰ.head p)) (Memᴰ.tail (Memᴰ.head q)) e = p ∙ sym q
images-Distinct a b (Memᴰ.tail (Memᴰ.tail m)) n e = elim m [ ]
images-Distinct a b m (Memᴰ.tail (Memᴰ.tail n)) e = elim n [ ]

abbrev archived : Committed
archived =
    settle 9 end success (sort newest_first images) (record_history end history success running_row)

-- The history of an interrupted prompt counts as cancelled.
interrupted_error_is_cancelled :
    history_terminal (
      some (
        field "status"
          (dict (
            field "status_str" (str "error") (
              field "completed" (bool false) (
                field "messages"
                  (list (cons (list (cons (str "Execution_Interrupted") nil)) nil))
                  end))))
          end))
    ≡ some cancelled
unfolding history_terminal
interrupted_error_is_cancelled = refl

Walk-laws_example :
    (is_active queued ≡ not (is_terminal queued))
    × ((t : GenerationStatus) → is_terminal queued ≡ true → Walk queued t → queued ≡ t)
    × ((t : GenerationStatus) × (is_terminal t ≡ true) × Walk queued t)
Walk-laws_example = Walk-laws queued

best_native_image_lem_example : Chosen images (best_native_image images)
best_native_image_lem_example = best_native_image_lem images

commit_finalization_settles_example :
    (is_terminal running_row.status ≡ false) × ResultOf running_row archived.generation
unfolding commit_finalization is_terminal
commit_finalization_settles_example =
    commit_finalization_settles 9 end history success images running_row {c = archived} refl

commit_finalization-Allowed_example :
    Allowed running archived.generation.status ⊎ IsRequeued archived.generation
unfolding commit_finalization is_terminal
commit_finalization-Allowed_example =
    commit_finalization-Allowed 9 end history success images running_row {c = archived} (inl refl)
      refl

absent_sources_lose_cancellation_example :
    (c : Committed) × (commit_finalization 9 end history success [] doomed_row ≡ some c)
    × (c.generation.status ≡ queued)
    × (c.generation.pending_delete ≡ doomed_row.pending_delete)
    × (c.pending_delete ≡ false)
    × (¬ Allowed doomed_row.status c.generation.status)
unfolding sources_were_absent double_eq
absent_sources_lose_cancellation_example =
    absent_sources_lose_cancellation 9 end history doomed_row refl refl refl

commit_finalization-IsPresented_example : IsPresented archived
unfolding commit_finalization is_terminal
commit_finalization-IsPresented_example =
    commit_finalization-IsPresented 9 end history success images running_row {c = archived}
      images-Distinct refl refl

prepare_startup_recovery_lem_example :
    let plan = prepare_startup_recovery 9 runtimes (ann_row ∷ running_row ∷ []) in
    All (IsRecovered runtimes) plan.generations
    × (map (λ j. j.generation_id) plan.prompt_jobs
        ≡ map (λ g. g.id) (filter in_flight plan.generations))
prepare_startup_recovery_lem_example =
    prepare_startup_recovery_lem 9 runtimes (ann_row ∷ running_row ∷ [])

-- Whom five claims in a row serve, after each of which the served owner's line is shorter: D comes
-- twice before C, who waits all the time.
resorted_turns :
    next_owner none (
        owner_order (
          ("A", 1)
          ∷ ("A", 4)
          ∷ ("B", 2)
          ∷ ("B", 50)
          ∷ ("C", 3)
          ∷ ("C", 80)
          ∷ ("D", 10)
          ∷ ("D", 60)
          ∷ ("D", 70)
          ∷ []))
      ∷ next_owner (some "A") (
          owner_order (
            ("A", 4)
            ∷ ("B", 2)
            ∷ ("B", 50)
            ∷ ("C", 3)
            ∷ ("C", 80)
            ∷ ("D", 10)
            ∷ ("D", 60)
            ∷ ("D", 70)
            ∷ []))
      ∷ next_owner (some "D") (
          owner_order
            (("A", 4) ∷ ("B", 2) ∷ ("B", 50) ∷ ("C", 3) ∷ ("C", 80) ∷ ("D", 60) ∷ ("D", 70) ∷ []))
      ∷ next_owner
          (some "B")
          (owner_order (("A", 4) ∷ ("B", 50) ∷ ("C", 3) ∷ ("C", 80) ∷ ("D", 60) ∷ ("D", 70) ∷ []))
      ∷ next_owner
          (some "D")
          (owner_order (("A", 4) ∷ ("B", 50) ∷ ("C", 3) ∷ ("C", 80) ∷ ("D", 70) ∷ []))
      ∷ []
    ≡ some "A" ∷ some "D" ∷ some "B" ∷ some "D" ∷ some "C" ∷ []
unfolding next_owner owner_order
resorted_turns = refl

-- It is Ann's turn, and her manual image goes before her automatic prompt.
abbrev claimed : Claim
claimed = record {
  owner = "ann";
  job = image ann_row;
  queue = (take_job 3 "gpu0" none "ann" queue (image ann_row)).0;
  events = (take_job 3 "gpu0" none "ann" queue (image ann_row)).1;
}

claimed_run : claim_next 3 pool "gpu0" none queue ≡ some claimed
unfolding claim_next
claimed_run = refl

claim_next-IsServed_example : IsServed pool "gpu0" (make_way 3 queue) claimed
claim_next-IsServed_example = claim_next-IsServed 3 pool "gpu0" none queue {c = claimed} claimed_run

claim_next-idle_example :
    (claim_next 3 pool "gpu0" none queue ≡ none)
    ↔ ((j : Job) → ¬ Waits pool "gpu0" (make_way 3 queue) j)
claim_next-idle_example = claim_next-idle 3 pool "gpu0" none queue

foreground_first_example :
    All Yields (make_way 3 queue_with_reel).generations
    × ((c : Claim) (g : Generation)
        → claim_next 3 pool "gpu0" none queue_with_reel ≡ some c
        → c.job ≡ image g
        → is_background g ≡ false)
unfolding is_active
foreground_first_example = foreground_first 3 pool "gpu0" none queue_with_reel refl refl

abbrev configs : List InstanceConfig
configs = record { id = "gpu0"; label = "First"; concurrency = some 1 } ∷ []

dispatch_iteration-le_example :
    load
      (dispatch_iteration (queue_claim 3 pool configs) ("gpu0" ∷ []) configs (λ i. true) [] queue).0
      "gpu0"
    ≤ 1
unfolding config_of load
dispatch_iteration-le_example =
    dispatch_iteration-le (queue_claim 3 pool configs) ("gpu0" ∷ []) configs (λ i. true) [] queue
      "gpu0" refl (omega arith)

-- One slot is free, and Ann's image fills it.
dispatch_run :
    (dispatch_iteration (queue_claim 3 pool configs) ("gpu0" ∷ []) configs (λ i. true) [] queue).0
    ≡ ("g1", "gpu0") ∷ []
unfolding dispatch_iteration queue_claim
dispatch_run = refl
