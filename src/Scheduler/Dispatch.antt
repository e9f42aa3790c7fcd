-- ===== src/Scheduler/Dispatch.antt =====
-- One iteration of the dispatcher: free slots are offered to the runtimes (`_dispatch_order`,
-- `_dispatch_iteration`, `_start_generation_task` of backend/app/services/queue_worker.py). A task
-- that ends during the iteration leaves it earlier than here.
use comfyui_image_frontend.Prelude.{
  ℕ, zero, suc, ◌-◌, String, Bool, not, ◌&&◌, ◌||◌, Option, none, some, List, [], ◌∷◌, ◌++◌, map,
  any, filter, length, index?, ltb, leb, ◌==◌, str_eq, concat, if◌then◌else◌,
}
use comfyui_image_frontend.Artifacts.{sort}
use comfyui_image_frontend.Scheduler.Pool.{Pool}
use comfyui_image_frontend.Scheduler.Claim.{Queue, Job, image, text, claim_next}

-- ComfyUIInstanceConfig, in what the dispatcher reads.
pub record InstanceConfig : Type 0 where
  pub id : String
  pub label : String
  pub concurrency : Option ℕ

-- `int(config.concurrency or 1)`
abbrev pub capacity : InstanceConfig → ℕ
capacity c = elim c.concurrency [ none ↦ 1 | some n ↦ if n == 0 then 1 else n ]

-- A running task: the id of its job and the runtime that executes it.
abbrev pub Active : Type 0
Active = String × String

abbrev pub runs_on : String → Active → Bool
runs_on instance_id (job, runtime) = str_eq runtime instance_id

-- _active_count
unfoldable pub load : List Active → String → ℕ
load active instance_id = length (filter (runs_on instance_id) active)

unfoldable pub config_of : List InstanceConfig → String → Option InstanceConfig
config_of [] instance_id = none
config_of (c ∷ configs) instance_id =
    if str_eq c.id instance_id then some c else config_of configs instance_id

abbrev place_in : List String → String → ℕ
place_in pool member = elim (index? member pool) [ none ↦ 0 | some i ↦ i ]

abbrev pub less_loaded : List Active → List String → String → String → Bool
less_loaded active pool a b =
    ltb (load active a) (load active b)
    || (load active a == load active b) && leb (place_in pool a) (place_in pool b)

-- _dispatch_order
unfoldable pub dispatch_order : List Active → List String → List InstanceConfig → List String
unfolding load sort
dispatch_order active pool configs =
    sort (less_loaded active pool) pool
    ++ filter (λ i. not (any (str_eq i) pool)) (map (λ c. c.id) configs)

-- _start_generation_task: a job that runs already keeps its task.
unfoldable pub start_task : String → String → List Active → List Active
start_task job instance_id active =
    if any (λ (t : Active). str_eq t.0 job) active then active else (job, instance_id) ∷ active

-- What the dispatcher claims with: a runtime and a state to the next job and the state afterwards.
module _ {S : Type 0} (claim : String → S → Option (String × S)) where
  -- The loop over the free slots of one runtime.
  unfoldable pub fill : ℕ → String → List Active → S → List Active × S
  unfolding start_task
  fill zero instance_id active s = (active, s)
  fill (suc n) instance_id active s = elim (claim instance_id s) [
    | none ↦ (active, s)
    | some (job, s') ↦ fill n instance_id (start_task job instance_id active) s'
  ]

  unfoldable pub offer :
      List InstanceConfig → (String → Bool) → String → List Active → S → List Active × S
  unfolding fill load config_of
  offer configs available instance_id active s = elim (config_of configs instance_id) [
    | none ↦ (active, s)
    | some c ↦
        if (capacity c - load active instance_id == 0) || not (available instance_id)
        then (active, s)
        else fill (capacity c - load active instance_id) instance_id active s
  ]

  unfoldable pub offer_all :
      List InstanceConfig → (String → Bool) → List String → List Active → S → List Active × S
  unfolding offer
  offer_all configs available [] active s = (active, s)
  offer_all configs available (i ∷ order) active s =
      let (active', s') = offer configs available i active s in
      offer_all configs available order active' s'

  -- _dispatch_iteration, after the tasks that are done have been taken out
  unfoldable pub dispatch_iteration :
      List String → List InstanceConfig → (String → Bool) → List Active → S → List Active × S
  unfolding offer_all dispatch_order
  dispatch_iteration pool configs available active s =
      offer_all configs available (dispatch_order active pool configs) active s

abbrev job_key : Job → String
job_key (image g) = g.id
job_key (text r) = concat ("text:" ∷ r.id ∷ [])

-- The claims of the dispatcher are those of `_claim_next`.
unfoldable pub queue_claim :
    ℕ → Pool → List InstanceConfig → String → Queue → Option (String × Queue)
unfolding claim_next config_of
queue_claim now pool configs target q =
    let label : Option String = elim (config_of configs target) [
      | none ↦ none
      | some c ↦ some c.label
    ] in
    elim (claim_next now pool target label q) [
      | none ↦ none
      | some c ↦ some (job_key c.job, c.queue)
    ]
