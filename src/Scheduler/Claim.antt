-- ===== src/Scheduler/Claim.antt =====
-- The transaction that claims the next job for a worker (`_claim_next` of
-- backend/app/services/queue_worker.py).
use comfyui_image_frontend.Prelude.{
  ℕ, String, Bool, true, false, ◌&&◌, Option, none, some, List, [], ◌∷◌, ◌++◌, map, filter, ltb,
  str_eq, if◌then◌else◌,
}
use comfyui_image_frontend.Status.{queued, status_eq}
use comfyui_image_frontend.Database.{Generation, GenerationEvent, write_generation}
use comfyui_image_frontend.Worker.Transactions.{dispatch}
use comfyui_image_frontend.Scheduler.Pool.{Pool, claimable}
use comfyui_image_frontend.Scheduler.Activity.{Reels, preempt}
use comfyui_image_frontend.Scheduler.Turn.{First, owner_order, next_owner}

-- PromptGenerationRun, in the columns of the queue.
pub record PromptRun : Type 0 where
  pub id : String
  pub owner_id : String
  pub instance_id : String
  pub status : String
  pub queue_seq : ℕ
  pub automatic : Bool

-- The tables, and the worker's fairness cursor.
pub record Queue : Type 0 where
  pub generations : List Generation
  pub prompt_runs : List PromptRun
  pub last_user_id : Option String
  pub reels : Reels

abbrev pub waits : Pool → String → Generation → Bool
waits pool target g = status_eq g.status queued && claimable pool target g

abbrev pub text_waits : String → PromptRun → Bool
text_waits target r = str_eq r.status "queued" && str_eq r.instance_id target

abbrev pub images_for : Pool → String → Queue → List Generation
images_for pool target q = filter (waits pool target) q.generations

abbrev pub texts_for : String → Queue → List PromptRun
texts_for target q = filter (text_waits target) q.prompt_runs

-- The jobs that the worker can take, with their owners.
unfoldable pub lines : Pool → String → Queue → List First
unfolding claimable
lines pool target q =
    map (λ g. (g.owner_id, g.queue_seq)) (images_for pool target q)
    ++ map (λ r. (r.owner_id, r.queue_seq)) (texts_for target q)

-- A job's place in its owner's line: manual jobs before automatic ones, then by number.
abbrev pub Rank : Type 0
Rank = Bool × ℕ

abbrev pub rank_lt : Rank → Rank → Bool
rank_lt (false, n) (true, m) = true
rank_lt (true, n) (false, m) = false
rank_lt (false, n) (false, m) = ltb n m
rank_lt (true, n) (true, m) = ltb n m

abbrev is_automatic : Option String → Bool
is_automatic none = false
is_automatic (some cycle) = true

abbrev pub image_rank : Generation → Rank
image_rank g = (is_automatic g.auto_cycle_id, g.queue_seq)

abbrev pub text_rank : PromptRun → Rank
text_rank r = (r.automatic, r.queue_seq)

-- `ORDER BY rank LIMIT 1`
module _ {A : Type 0} (rank : A → Rank) where
  unfoldable pub first_from : A → List A → A
  first_from best [] = best
  first_from best (a ∷ rest) = first_from (if rank_lt (rank a) (rank best) then a else best) rest

  unfoldable pub first_by : List A → Option A
  unfolding first_from
  first_by [] = none
  first_by (a ∷ rest) = some (first_from a rest)

pub data Job : Type 0 where
  image : Generation → Job
  text : PromptRun → Job

abbrev pub choose : Option Generation → Option PromptRun → Option Job
choose none none = none
choose (some g) none = some (image g)
choose none (some r) = some (text r)
choose (some g) (some r) =
    if rank_lt (text_rank r) (image_rank g) then some (text r) else some (image g)

-- The job of this owner that the worker takes.
unfoldable pub next_job : Pool → String → Queue → String → Option Job
unfolding first_by claimable
next_job pool target q owner =
    choose
      (first_by image_rank
        (filter (λ g. str_eq g.owner_id owner && waits pool target g) q.generations))
      (first_by text_rank
        (filter (λ r. str_eq r.owner_id owner && text_waits target r) q.prompt_runs))

abbrev start_text : PromptRun → List PromptRun → List PromptRun
start_text r =
    map (λ (s : PromptRun). if str_eq s.id r.id then record s { status = "dispatching" } else s)

-- What a claim commits: the tables with the cursor, and the event of an image.
unfoldable pub take_job :
    ℕ → String → Option String → String → Queue → Job → Queue × List GenerationEvent
unfolding dispatch write_generation
take_job now target label owner q (text r) =
    (record q { prompt_runs = start_text r q.prompt_runs; last_user_id = some owner }, [])
take_job now target label owner q (image g) =
    let (g', events) = dispatch now target label g in
    (
      record q { generations = write_generation g' q.generations; last_user_id = some owner },
      events,
    )

pub record Claim : Type 0 where
  pub owner : String
  pub job : Job
  pub queue : Queue
  pub events : List GenerationEvent

-- The claim, once the reels are preempted, for a worker with this label
unfoldable pub take_turn : ℕ → Pool → String → Option String → Queue → Option Claim
unfolding lines owner_order next_owner next_job take_job
take_turn now pool target label q =
    elim (next_owner q.last_user_id (owner_order (lines pool target q))) [
      | none ↦ none
      | some owner ↦ elim (next_job pool target q owner) [
        | none ↦ none
        | some job ↦
            let (q', events) = take_job now target label owner q job in
            some (record { owner = owner; job = job; queue = q'; events = events })
      ]
    ]

unfoldable pub make_way : ℕ → Queue → Queue
unfolding preempt
make_way now q =
    let kept = preempt now q.reels q.generations in
    record q { reels = kept.0; generations = kept.1 }

-- _claim_next. Where it claims nothing it returns without a commit, and the preemption is rolled back.
unfoldable pub claim_next : ℕ → Pool → String → Option String → Queue → Option Claim
unfolding make_way take_turn
claim_next now pool target label q = take_turn now pool target label (make_way now q)
