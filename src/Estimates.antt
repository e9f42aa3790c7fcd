-- ===== src/Estimates.antt =====
-- The estimate of a queue's duration (backend/app/services/activity_estimates.py): queued images are
-- placed on the workers in the order in which the dispatcher would take them. How long an image takes
-- on a worker (backend/app/services/generation_eta.py) is a parameter; seconds are whole numbers.
pub mod Hosts
pub mod Blocked
pub mod Placed
pub mod Turns
use comfyui_image_frontend.Prelude.{
  ℕ, zero, suc, ◌+◌, ◌-◌, String, Bool, true, false, not, ◌&&◌, ◌||◌, Option, none, some, List, [],
  ◌∷◌, ◌++◌, map, any, filter, length, is_empty, index?, ◌==◌, ltb, str_eq, if◌then◌else◌,
}
use comfyui_image_frontend.Status.{queued, status_eq}
use comfyui_image_frontend.Database.{Generation}
use comfyui_image_frontend.Scheduler.Pool.{Pool, WorkflowProfile, sql_eq}
use comfyui_image_frontend.Scheduler.Turn.{owner_order, next_owner}
use comfyui_image_frontend.Scheduler.Claim.{image_rank, first_by}

-- `replica` carries the revision that `accepted` has now.
abbrev pub replicates : String → WorkflowProfile → WorkflowProfile → Bool
replicates worker_id accepted replica =
    sql_eq replica.instance_id (some worker_id)
    && sql_eq replica.source_id accepted.source_id
    && sql_eq replica.publication_id accepted.publication_id
    && str_eq replica.ui_graph_sha256 accepted.ui_graph_sha256
    && str_eq replica.api_graph_sha256 accepted.api_graph_sha256
    && sql_eq replica.manifest_sha256 accepted.manifest_sha256

abbrev pub has_no_source : WorkflowProfile → Bool
has_no_source p = elim p.source_id [ none ↦ true | some s ↦ false ]

-- A profile of before publications.
abbrev pub is_legacy : Pool → Generation → Bool
is_legacy pool g =
    any (λ accepted. str_eq accepted.id g.workflow_profile_id && has_no_source accepted)
      pool.profiles

abbrev pub is_carried : Pool → Generation → String → Bool
is_carried pool g worker_id =
    any
      (λ accepted.
        str_eq accepted.id g.workflow_profile_id
        && any (replicates worker_id accepted) pool.profiles)
      pool.profiles

-- _eligible_hosts, at one job
unfoldable pub eligible_hosts : Pool → Generation → List String
eligible_hosts pool g = elim g.comfyui_instance_id [
  | some i ↦ i ∷ []
  | none ↦
      if is_legacy pool g then pool.primary_id ∷ [] else filter (is_carried pool g) pool.member_ids
]

-- The owner whose turn it is, and the image that is placed next.
unfoldable pub next_placed : Option String → List Generation → Option (String × Generation)
unfolding next_owner owner_order first_by
next_placed last pending =
    elim (next_owner last (owner_order (map (λ g. (g.owner_id, g.queue_seq)) pending))) [
      | none ↦ none
      | some owner ↦ elim (first_by image_rank (filter (λ g. str_eq g.owner_id owner) pending)) [
        | none ↦ none
        | some job ↦ some (owner, job)
      ]
    ]

-- `pending.remove(job)`
unfoldable pub remove_job : String → List Generation → List Generation
remove_job i [] = []
remove_job i (g ∷ gs) = let rest = remove_job i gs in if str_eq g.id i then gs else g ∷ rest

-- When each worker is free.
abbrev pub Timeline : Type 0
Timeline = List (String × ℕ)

abbrev pub free_at : String → Timeline → Option ℕ
free_at i [] = none
free_at i ((j, t) ∷ rest) = if str_eq j i then some t else free_at i rest

abbrev pub occupy : String → ℕ → Timeline → Timeline
occupy i d [] = []
occupy i d ((j, t) ∷ rest) =
    let later = occupy i d rest in if str_eq j i then (j, t + d) ∷ rest else (j, t) ∷ later

-- A worker with the time when it is free and its place in the pool.
abbrev pub Candidate : Type 0
Candidate = String × (ℕ × ℕ)

abbrev place_in : String → List String → ℕ
place_in i order = elim (index? i order) [ none ↦ length order | some n ↦ n ]

abbrev pub candidates : List String → Timeline → List String → List Candidate
candidates order timeline [] = []
candidates order timeline (i ∷ hosts) =
    let rest = candidates order timeline hosts in
    elim (free_at i timeline) [ none ↦ rest | some t ↦ (i, (t, place_in i order)) ∷ rest ]

abbrev pub frees_sooner : Candidate → Candidate → Bool
frees_sooner (i, (t, n)) (j, (u, m)) = ltb t u || (t == u) && ltb n m

unfoldable pub soonest_from : Candidate → List Candidate → Candidate
soonest_from best [] = best
soonest_from best (c ∷ rest) = soonest_from (if frees_sooner c best then c else best) rest

abbrev pub soonest : List Candidate → Option Candidate
soonest [] = none
soonest (c ∷ rest) = some (soonest_from c rest)

pub record Simulation : Type 0 where
  pub pending : List Generation
  pub last : Option String
  pub timeline : Timeline
  pub finishes : List (ℕ × ℕ)
  pub remaining_owned : ℕ

abbrev pub is_owned : String → Generation → Bool
is_owned owner g = str_eq g.owner_id owner

-- What a simulation ends with: the finishing times of the account's images, or that some duration or
-- host is unknown.
pub data Forecast : Type 0 where
  unknown : Forecast
  known : List (ℕ × ℕ) → Forecast

abbrev pub is_pending : Timeline → Generation → Bool
is_pending timeline g = status_eq g.status queued && elim g.comfyui_instance_id [
  | none ↦ true
  | some i ↦ elim (free_at i timeline) [ none ↦ false | some t ↦ true ]
]

module _ (duration : Generation → String → Option ℕ) (pool : Pool) (owner : String) where
  -- The image is placed on the worker that is free first.
  unfoldable pub place_on : Simulation → String → Generation → Option Simulation
  unfolding remove_job eligible_hosts soonest_from
  place_on s turn job =
      elim (soonest (candidates pool.member_ids s.timeline (eligible_hosts pool job))) [
        | none ↦ none
        | some (runtime, (start, n)) ↦ elim (duration job runtime) [
          | none ↦ none
          | some d ↦ some (record {
            pending = remove_job job.id s.pending;
            last = some turn;
            timeline = occupy runtime d s.timeline;
            finishes = if is_owned owner job then s.finishes ++ (start + d, d) ∷ [] else s.finishes;
            remaining_owned =
                if is_owned owner job then s.remaining_owned - 1 else s.remaining_owned;
          })
        ]
      ]

  unfoldable pub place_next : Simulation → Option Simulation
  unfolding next_placed place_on
  place_next s = elim (next_placed s.last s.pending) [
    | none ↦ none
    | some (turn, job) ↦ place_on s turn job
  ]

  -- The loop, on fuel; `none` means that the fuel ran out.
  unfoldable pub simulate : ℕ → Simulation → Option Forecast
  unfolding place_next
  simulate zero s = none
  simulate (suc f) s =
      let rest : Option Forecast = elim (place_next s) [
        | none ↦ some unknown
        | some s' ↦ simulate f s'
      ] in
      if is_empty s.pending || s.remaining_owned == 0 then some (known s.finishes) else rest

  -- _simulate_pending
  unfoldable pub simulate_pending :
      ℕ → Option String → Timeline → List (ℕ × ℕ) → List Generation → Option Forecast
  unfolding simulate
  simulate_pending fuel last timeline finishes jobs =
      let pending : List Generation = filter (is_pending timeline) jobs in
      simulate fuel (record {
        pending = pending;
        last = last;
        timeline = timeline;
        finishes = finishes;
        remaining_owned = length (filter (is_owned owner) pending);
      })
