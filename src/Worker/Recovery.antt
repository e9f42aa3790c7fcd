-- ===== src/Worker/Recovery.antt =====
-- The plan that the worker makes when it starts (`_prepare_startup_recovery` of
-- backend/app/services/queue_worker.py).
use comfyui_image_frontend.Prelude.{
  ℕ, String, Bool, true, false, not, Option, none, some, List, [], ◌∷◌, ◌++◌, str_eq, concat, any,
  map, filter, if◌then◌else◌, ◌&&◌,
}
use comfyui_image_frontend.Json.{dict, str, end, field}
use comfyui_image_frontend.Status.{
  queued, dispatching, running, cancel_requested, cancelled_without_artifacts,
  failed_without_artifacts, value, status_eq,
}
use comfyui_image_frontend.Database.{Generation, GenerationEvent, generation_event}
use comfyui_image_frontend.Worker.Transactions.{Txn, is_some_text, release_worker}

abbrev or_text : Option String → String → String
or_text none d = d
or_text (some t) d = if str_eq t "" then d else t

abbrev text_of : Option String → String
text_of none = "None"
text_of (some t) = t

-- `row.comfyui_instance_label or row.comfyui_instance_id`
abbrev instance_label : Generation → String
instance_label g = or_text g.comfyui_instance_label (text_of g.comfyui_instance_id)

abbrev pub is_configured : List String → Option String → Bool
is_configured ids none = false
is_configured ids (some i) = any (str_eq i) ids

-- A queued row that is still pinned to a runtime. `releasable` says that some member of the image pool
-- can execute it.
unfoldable pub recover_queued : ℕ → List String → Bool → Generation → Txn
unfolding generation_event release_worker
recover_queued now configured_ids releasable g =
    let configured = is_configured configured_ids g.comfyui_instance_id in
    if releasable
    then (let g' = release_worker (record g { progress_json = none }) in
        (
          g',
          generation_event now g' "generation.requeued" (
                field "reason"
                  (str (
                    if configured
                    then "The generation returned to the image worker pool."
                    else concat (
                        instance_label g
                        ∷ " is no longer configured. The generation returned to the image worker pool."
                        ∷ [])))
                  end)
              ∷ [],
        ))
    else if configured
    then (g, [])
    else (let message = concat (
          instance_label g
          ∷ " is no longer configured. The generation was not redirected to another runtime."
          ∷ []) in
        let g' = record g {
          status = failed_without_artifacts;
          error_code = some "comfyui_instance_unconfigured";
          error_message = some message;
          result_errors_json =
              dict (
                field "code" (str "comfyui_instance_unconfigured")
                  (field "message" (str message) end))
              ∷ [];
          completed_at = some now;
          progress_json = none;
        } in
        (
          g',
          generation_event now g' "generation.terminal" (
                field "status" (str (value failed_without_artifacts))
                  (field "error" (str message) end))
              ∷ [],
        ))

-- A prompt to reconcile: the generation, its runtime and the prompt.
pub record PromptJob : Type 0 where
  pub generation_id : String
  pub instance_id : String
  pub prompt_id : String

-- A row that was dispatching, running or cancel-requested.
unfoldable pub recover_in_flight : ℕ → Generation → Txn
unfolding generation_event release_worker
recover_in_flight now g =
    if is_some_text g.comfyui_prompt_id
    then (g, [])
    else if status_eq g.status cancel_requested
    then (record g { status = cancelled_without_artifacts; completed_at = some now }, [])
    else (let g' = release_worker (record g {
      status = queued;
      submitted_graph_json = none;
      submitted_graph_sha256 = none;
      progress_json = none;
    }) in
        (
          g',
          generation_event now g' "generation.requeued"
                (field "reason" (str "Recovered before ComfyUI submission.") end)
              ∷ [],
        ))

unfoldable pub prompt_job : String → Generation → List PromptJob
prompt_job primary_id g =
    if is_some_text g.comfyui_prompt_id
    then record {
      generation_id = g.id;
      instance_id = or_text g.comfyui_instance_id primary_id;
      prompt_id = text_of g.comfyui_prompt_id;
    }
      ∷ []
    else []

-- What the worker knows of the runtimes: those configured, the catalog's, and for which rows some
-- member of the image pool carries the accepted revision.
pub record Runtimes : Type 0 where
  pub configured_ids : List String
  pub primary_id : String
  pub releasable : Generation → Bool

abbrev pub is_pinned : Generation → Bool
is_pinned g = elim g.comfyui_instance_id [ none ↦ false | some i ↦ true ]

abbrev pub in_flight : Generation → Bool
in_flight g = any (λ s. status_eq s g.status) (dispatching ∷ running ∷ cancel_requested ∷ [])

-- The two queries select disjoint rows: a row is pinned and queued, or in flight, or left alone.
unfoldable pub recover : ℕ → Runtimes → Generation → Txn
unfolding recover_queued recover_in_flight
recover now r g =
    if status_eq g.status queued && is_pinned g
    then recover_queued now r.configured_ids (r.releasable g) g
    else if in_flight g
    then recover_in_flight now g
    else (g, [])

-- _prepare_startup_recovery: the rows, the events, and the prompts to reconcile.
pub record RecoveryPlan : Type 0 where
  pub generations : List Generation
  pub notifications : List GenerationEvent
  pub prompt_jobs : List PromptJob

abbrev pub flat {ℓ κ} : {A : Type ℓ} {B : Type κ} → (A → List B) → List A → List B
flat f [] = []
flat f (x ∷ xs) = f x ++ flat f xs

unfoldable pub prepare_startup_recovery : ℕ → Runtimes → List Generation → RecoveryPlan
unfolding recover prompt_job
prepare_startup_recovery now r rows = record {
  generations = map (λ g. (recover now r g).0) rows;
  notifications =
      flat (λ g. (recover now r g).1) (filter (λ g. not (in_flight g)) rows)
      ++ flat (λ g. (recover now r g).1) (filter in_flight rows);
  prompt_jobs = flat (prompt_job r.primary_id) (filter in_flight rows);
}
