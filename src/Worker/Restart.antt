-- ===== src/Worker/Restart.antt =====
-- What the rows and the prompts to reconcile look like after the worker's start.
use mathlib.Core.Path.{ap₂}
use mathlib.Core.List.{map-append}
use comfyui_image_frontend.Prelude.{
  ℕ, String, ◌≡◌, refl, sym, ap, ◌∙◌, ◌⊎◌, true, false, List, [], ◌∷◌, ◌++◌, map, filter, none, All,
  filter-cons, arith, Bool-cases, inl, inr,
}
use comfyui_image_frontend.Status.{queued}
use comfyui_image_frontend.Database.{Generation}
use comfyui_image_frontend.Worker.Transactions.{is_some_text}
use comfyui_image_frontend.Worker.Recovery.{
  Runtimes, recover, prepare_startup_recovery, in_flight, prompt_job, PromptJob, is_configured,
  flat,
}

-- A row in flight has its prompt; a queued row waits for any worker, or for one that is configured.
pub record IsRecovered (r : Runtimes) (g : Generation) : Type 0 where
  pub prompted : in_flight g ≡ true → is_some_text g.comfyui_prompt_id ≡ true
  pub pinned :
      g.status ≡ queued
      → (g.comfyui_instance_id ≡ none)
        ⊎ (is_configured r.configured_ids g.comfyui_instance_id ≡ true)

recover-IsRecovered : (now : ℕ) (r : Runtimes) (g : Generation) → IsRecovered r (recover now r g).0
unfolding recover
recover-IsRecovered now r g = ground arith

abbrev job_ids : List PromptJob → List String
job_ids = map (λ j. j.generation_id)

prompt_job-ids :
    (now : ℕ) (r : Runtimes) (g : Generation)
    → in_flight g ≡ true
    → job_ids (prompt_job r.primary_id g)
      ≡ (map (λ g. g.id) (filter in_flight ((recover now r g).0 ∷ [])))
unfolding prompt_job recover
prompt_job-ids now r g h = ground arith

recover-not_in_flight :
    (now : ℕ) (r : Runtimes) (g : Generation)
    → in_flight g ≡ false
    → in_flight (recover now r g).0 ≡ false
unfolding recover
recover-not_in_flight now r g h = ground arith

rows-IsRecovered :
    (now : ℕ) (r : Runtimes) (rows : List Generation)
    → All (IsRecovered r) (map (λ g. (recover now r g).0) rows)
rows-IsRecovered now r [] = tt
rows-IsRecovered now r (g ∷ rows) = (recover-IsRecovered now r g, rows-IsRecovered now r rows)

abbrev ids : List Generation → List String
ids = map (λ g. g.id)

job_ids-recover :
    (now : ℕ) (r : Runtimes) (rows : List Generation)
    → job_ids (flat (prompt_job r.primary_id) (filter in_flight rows))
      ≡ ids (filter in_flight (map (λ g. (recover now r g).0) rows))
job_ids-recover now r [] = refl
job_ids-recover now r (g ∷ rows) = elim (Bool-cases (in_flight g)) [
  | inr out ↦ rw (out, recover-not_in_flight now r g out) (job_ids-recover now r rows)
  | inl busy ↦ rw busy (one_more busy (job_ids-recover now r rows))
]
  where
    jobs : List PromptJob
    jobs = flat (prompt_job r.primary_id) (filter in_flight rows)

    after : List Generation
    after = map (λ g. (recover now r g).0) rows

    one_more :
        in_flight g ≡ true
        → job_ids jobs ≡ ids (filter in_flight after)
        → job_ids (prompt_job r.primary_id g ++ jobs)
          ≡ ids (filter in_flight ((recover now r g).0 ∷ after))
    one_more busy ih =
        map-append (λ (j : PromptJob). j.generation_id) (prompt_job r.primary_id g) jobs
        ∙ ap₂ (λ xs ys. xs ++ ys) (prompt_job-ids now r g busy) ih
        ∙ sym (
            ap ids (filter-cons in_flight (recover now r g).0 after)
            ∙ map-append (λ (g : Generation). g.id) (filter in_flight ((recover now r g).0 ∷ []))
                (filter in_flight after))

-- After the worker's start, whatever it left behind: every row that is dispatching, running or
-- cancel-requested has a prompt, every queued row waits for any worker or for one that is
-- configured, and the prompts to reconcile belong to exactly the rows still in flight, in order.
pub prepare_startup_recovery_lem :
    (now : ℕ) (r : Runtimes) (rows : List Generation)
    → let plan = prepare_startup_recovery now r rows in
      All (IsRecovered r) plan.generations
      × (job_ids plan.prompt_jobs ≡ ids (filter in_flight plan.generations))
unfolding prepare_startup_recovery
prepare_startup_recovery_lem now r rows = (rows-IsRecovered now r rows, job_ids-recover now r rows)
