-- ===== src/Scheduler/Activity.antt =====
-- Foreground work preempts the background reels (backend/app/services/demo_reel_activity.py).
use comfyui_image_frontend.Prelude.{
  ℕ, String, Bool, true, not, ◌&&◌, Option, none, some, List, [], ◌∷◌, ◌++◌, ◌||◌, map, any, str_eq,
  if◌then◌else◌,
}
use comfyui_image_frontend.Status.{
  queued, cancel_requested, cancelled_without_artifacts, status_eq, is_active,
}
use comfyui_image_frontend.Database.{Generation, get_generation}

abbrev pub system_owner_id : String
system_owner_id = "00000000-0000-4000-8000-000000000001"

abbrev pub is_background : Generation → Bool
is_background g = str_eq g.owner_id system_owner_id && is_active g.status

abbrev pub is_foreground : Generation → Bool
is_foreground g = not (str_eq g.owner_id system_owner_id) && is_active g.status

-- The entry of a reel, with the generation that renders it.
pub record DemoReelEntry : Type 0 where
  pub state : String
  pub generation_id : Option String

-- A background generation that is active is to be cancelled and deleted.
unfoldable pub revoke : ℕ → Generation → Generation
unfolding is_active
revoke now g =
    if is_background g
    then (if status_eq g.status queued
        then record g {
          pending_delete = true;
          cancel_requested_at = some now;
          status = cancelled_without_artifacts;
          completed_at = some now;
        }
        else record g {
          pending_delete = true;
          cancel_requested_at = some now;
          status = cancel_requested;
        })
    else g

abbrev text_of : Option String → String
text_of none = ""
text_of (some t) = t

abbrev still_renders : List Generation → Option String → Bool
still_renders rows none = true
still_renders rows (some i) = elim (get_generation i rows) [
  | none ↦ true
  | some g ↦ is_active g.status
]

unfoldable pub discard : List Generation → DemoReelEntry → DemoReelEntry
unfolding get_generation is_active
discard rows e =
    if str_eq e.state "running"
      && (if str_eq (text_of e.generation_id) "" then true else still_renders rows e.generation_id)
    then record e { state = "discarded" }
    else e

-- DemoReelConfig, in the column that is written here.
pub record DemoReelConfig : Type 0 where
  pub last_activity_at : Option ℕ

-- The tables that the preemption works on; the configuration is the row 1, if there is one.
pub record Reels : Type 0 where
  pub config : Option DemoReelConfig
  pub entries : List DemoReelEntry

-- The runtime and the prompt of a background generation that was revoked, where it has both.
abbrev pub activity_target : Generation → List (String × String)
activity_target g = elim g.comfyui_instance_id [
  | none ↦ []
  | some i ↦ elim g.comfyui_prompt_id [
    | none ↦ []
    | some p ↦ if str_eq i "" || str_eq p "" then [] else (i, p) ∷ []
  ]
]

unfoldable pub targets_of : List Generation → List (String × String)
unfolding is_active
targets_of [] = []
targets_of (g ∷ rows) =
    let rest = targets_of rows in if is_background g then activity_target g ++ rest else rest

-- What record_activity commits, and the prompts that it returns
pub record Activity : Type 0 where
  pub reels : Reels
  pub generations : List Generation
  pub targets : List (String × String)

unfoldable pub record_activity : ℕ → Reels → List Generation → Activity
unfolding revoke discard targets_of
record_activity now reels rows = elim reels.config [
  | none ↦ record { reels = reels; generations = rows; targets = [] }
  | some config ↦ record {
    reels = record {
      config = some (record { last_activity_at = some now });
      entries = map (discard rows) reels.entries;
    };
    generations = map (revoke now) rows;
    targets = targets_of rows;
  }
]

-- The start of `_claim_next`: reels are preempted where both kinds of work are active. The targets
-- are not used there.
unfoldable pub preempt : ℕ → Reels → List Generation → Reels × List Generation
unfolding record_activity is_active
preempt now reels rows =
    if any is_background rows && any is_foreground rows
    then (let a = record_activity now reels rows in (a.reels, a.generations))
    else (reels, rows)
