-- ===== src/Scheduler/Pool.antt =====
-- The pool of interchangeable image workers (backend/app/services/worker_pool.py).
use comfyui_image_frontend.Prelude.{
  ℕ, ◌-◌, String, Bool, true, false, ◌&&◌, ◌||◌, Option, none, some, List, [], ◌∷◌, any, filter,
  length, ltb, str_eq, if◌then◌else◌,
}
use comfyui_image_frontend.Status.{dispatching, running, cancel_requested, status_eq}
use comfyui_image_frontend.Database.{Generation}

-- The columns of a published workflow that identify its revision.
pub record WorkflowProfile : Type 0 where
  pub id : String
  pub instance_id : Option String
  pub source_id : Option String
  pub publication_id : Option String
  pub ui_graph_sha256 : String
  pub api_graph_sha256 : String
  pub manifest_sha256 : Option String

-- A comparison in SQL: null equals nothing.
abbrev pub sql_eq : Option String → Option String → Bool
sql_eq (some a) (some b) = str_eq a b
sql_eq _ _ = false

abbrev is_null : Option String → Bool
is_null none = true
is_null (some a) = false

-- `replica` carries the revision that `accepted` had when the generation was accepted.
abbrev pub carries : String → Generation → WorkflowProfile → WorkflowProfile → Bool
carries worker_id g accepted replica =
    str_eq accepted.id g.workflow_profile_id
    && sql_eq replica.instance_id (some worker_id)
    && sql_eq replica.source_id accepted.source_id
    && sql_eq replica.publication_id (some g.workflow_version)
    && str_eq replica.ui_graph_sha256 g.ui_graph_sha256
    && str_eq replica.api_graph_sha256 g.api_graph_sha256
    && sql_eq replica.manifest_sha256 (some g.contract_sha256)

-- ImageWorkerPool: its members, the first of them the primary.
pub record Pool : Type 0 where
  pub member_ids : List String
  pub primary_id : String
  pub profiles : List WorkflowProfile

unfoldable pub is_member : Pool → String → Bool
is_member p instance_id = any (str_eq instance_id) p.member_ids

-- eligible_clause
unfoldable pub eligible : Pool → String → Generation → Bool
eligible p worker_id g =
    any (λ accepted. any (carries worker_id g accepted) p.profiles) p.profiles
    || str_eq worker_id p.primary_id
      && any
          (λ accepted.
            str_eq accepted.id g.workflow_profile_id
            && (is_null accepted.source_id || is_null accepted.publication_id))
          p.profiles

-- `claimable` in `_claim_next`: claimable_clause for a member of the pool, and else what is pinned
-- to the runtime.
unfoldable pub claimable : Pool → String → Generation → Bool
unfolding eligible is_member
claimable p target_id g = elim g.comfyui_instance_id [
  | none ↦ is_member p target_id && eligible p target_id g
  | some i ↦ str_eq i target_id
]

-- WorkerStatus
pub record WorkerStatus : Type 0 where
  pub id : String
  pub available : Bool
  pub active_count : ℕ
  pub capacity : ℕ

unfoldable pub free_slots : WorkerStatus → ℕ
free_slots w = if w.available then w.capacity - w.active_count else 0

unfoldable pub busy : WorkerStatus → Bool
busy w = ltb 0 w.active_count

unfoldable pub idle : WorkerStatus → Bool
unfolding free_slots
idle w = w.available && ltb 0 (free_slots w)

-- A row that occupies a slot of the worker (ASSIGNED_STATUSES).
abbrev pub occupies : String → Generation → Bool
occupies worker_id g =
    sql_eq g.comfyui_instance_id (some worker_id)
    && any (λ s. status_eq s g.status) (dispatching ∷ running ∷ cancel_requested ∷ [])

-- active_counts, at one worker
unfoldable pub active_count : List Generation → String → ℕ
active_count rows worker_id = length (filter (occupies worker_id) rows)
