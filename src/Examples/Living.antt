-- ===== src/Examples/Living.antt =====
-- A life: the generation is claimed, its output vanishes from the runtime, it is retried once, and fails.
use comfyui_image_frontend.Prelude.{ℕ, String, ◌≡◌, ◌≢◌, refl, ap, true, none, some, [], str_eq}
use comfyui_image_frontend.Json.{str, end, double_eq}
use comfyui_image_frontend.Status.{queued, is_terminal}
use comfyui_image_frontend.Database.{Generation}
use comfyui_image_frontend.Worker.Transactions.{dispatch, save_graph, submit_and_mark_running}
use comfyui_image_frontend.Worker.History.{success, failed}
use comfyui_image_frontend.Worker.Recovery.{recover}
use comfyui_image_frontend.Archive.Failures.{record_persistence_failure}
use comfyui_image_frontend.Finalize.Commit.{Committed, settle, commit_finalization}
use comfyui_image_frontend.Finalize.Record.{record_history}
use comfyui_image_frontend.Lifecycle.{
  idle, following, ending, claim, begin, graph, submit, monitor, end_monitor, finalize, note,
  not_archived, restart, Reach, here, next, IsAccepted,
}
use comfyui_image_frontend.Lifecycle.Consistency.{Reach-IsConsistent}
use comfyui_image_frontend.Lifecycle.Phases.{IsConsistent}
use comfyui_image_frontend.Lifecycle.Final.{Reach-Reach, terminal-final, requeued_at_most_once}
use comfyui_image_frontend.Examples.Rows.{ann_row, history, runtimes}
use comfyui_image_frontend.Examples.Archiving.{final_file, gone}

abbrev ann_row-IsAccepted : IsAccepted ann_row
ann_row-IsAccepted = record {
  status = refl;
  no_worker = refl;
  no_prompt = refl;
  no_graph = refl;
  not_completed = refl;
  kept = refl;
}

abbrev isoformat : ℕ → String
isoformat now = "2026-01-01"

-- A queued row once its prompt is submitted
abbrev sent_row : String → Generation → Generation
sent_row p g =
    (submit_and_mark_running isoformat 4 p
      (save_graph (str "graph") "digest" (dispatch 3 "gpu0" none g).0).0).0.0

p1_named : ◌≢◌ {A = String} "p1" ""
p1_named e = cc (ap (λ s. str_eq s "") e)

executed : (g : Generation) → g.status ≡ queued → Reach g idle (sent_row "p1" g) following
unfolding dispatch save_graph submit_and_mark_running
executed g q =
    next
      (next
        (next (next (next here (claim g 3 "gpu0" none q)) (begin _))
          (graph _ (str "graph") "digest"))
        (submit _ isoformat 4 "p1" p1_named))
      (monitor _)

abbrev lost_row : Generation
lost_row = (record_persistence_failure 5 final_file gone (sent_row "p1" ann_row)).0

first_life : Reach ann_row idle lost_row ending
first_life =
    next (next (executed ann_row refl) (note _ _ following (not_archived 5 final_file gone)))
      (end_monitor _)

abbrev retried : Committed
retried = settle 9 end success [] (record_history end history success lost_row)

abbrev again : Generation
again = sent_row "p1" retried.generation

abbrev given_up : Committed
given_up = settle 12 end failed [] (record_history end history failed again)

first_commit : commit_finalization 9 end history success [] lost_row ≡ some retried
unfolding commit_finalization is_terminal dispatch save_graph submit_and_mark_running
    record_persistence_failure
first_commit = refl

retried_queued : retried.generation.status ≡ queued
unfolding settle is_terminal record_history submit_and_mark_running save_graph dispatch
    record_persistence_failure double_eq
retried_queued = refl

second_life : Reach retried.generation idle again ending
unfolding settle
second_life = next (executed retried.generation retried_queued) (end_monitor _)

second_commit : commit_finalization 12 end history failed [] again ≡ some given_up
unfolding commit_finalization is_terminal dispatch save_graph submit_and_mark_running
    record_persistence_failure
second_commit = refl

requeued_at_most_once_example : is_terminal given_up.generation.status ≡ true
unfolding settle
requeued_at_most_once_example =
    requeued_at_most_once ann_row-IsAccepted first_life 9 end history success [] {c = retried}
      first_commit retried_queued second_life 12 end history failed [] {c' = given_up} second_commit

whole_life : Reach ann_row idle given_up.generation idle
whole_life =
    next
      (Reach-Reach (next first_life (finalize _ 9 end history success [] first_commit)) second_life)
      (finalize _ 12 end history failed [] second_commit)

Reach-IsConsistent_example : IsConsistent given_up.generation
Reach-IsConsistent_example = Reach-IsConsistent ann_row-IsAccepted whole_life

given_up_terminal : is_terminal given_up.generation.status ≡ true
unfolding settle is_terminal record_history submit_and_mark_running save_graph dispatch
    record_persistence_failure double_eq
given_up_terminal = refl

terminal-final_example :
    (recover 20 runtimes given_up.generation).0.status ≡ given_up.generation.status
terminal-final_example =
    terminal-final ann_row-IsAccepted whole_life given_up_terminal
      (next here (restart _ idle 20 runtimes))
