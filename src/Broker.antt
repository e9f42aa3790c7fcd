-- ===== src/Broker.antt =====
-- The fan-out of events to the connections of their owner
-- (backend/app/services/event_broker.py). A subscriber is a queue, which has an identity; the
-- dictionary of sets is the list of the subscribers with their owners.
pub mod Subsequence
pub mod Delivered
use comfyui_image_frontend.Json.{Fields}
use comfyui_image_frontend.Prelude.{
  ℕ, String, Bool, not, ◌&&◌, Option, none, some, List, [], ◌∷◌, ◌++◌, map, filter, length, ◌==◌,
  ltb, str_eq, if◌then◌else◌,
}

abbrev pub Event : Type 0
Event = Fields

-- `asyncio.Queue(maxsize=200)`
abbrev pub maxsize : ℕ
maxsize = 200

pub record Subscriber : Type 0 where
  pub id : ℕ
  pub owner : String
  pub queue : List Event

-- `put_nowait`, where a full queue drops the event
abbrev pub put_nowait : Event → List Event → List Event
put_nowait event queue = if ltb (length queue) maxsize then queue ++ event ∷ [] else queue

abbrev pub deliver : String → Event → Subscriber → Subscriber
deliver owner_id event s = record s {
  queue = if str_eq s.owner owner_id then put_nowait event s.queue else s.queue;
}

-- EventBroker.publish
unfoldable pub publish : String → Event → List Subscriber → List Subscriber
publish owner_id event subscribers = map (deliver owner_id event) subscribers

-- The start of `subscribe`, with a new queue
unfoldable pub subscribe : ℕ → String → List Subscriber → List Subscriber
subscribe new_id owner_id subscribers =
    subscribers ++ record { id = new_id; owner = owner_id; queue = [] } ∷ []

-- Its end
unfoldable pub unsubscribe : ℕ → List Subscriber → List Subscriber
unsubscribe old_id subscribers = filter (λ s. not (s.id == old_id)) subscribers

abbrev pub rest_of : List Event → List Event
rest_of [] = []
rest_of (e ∷ es) = es

abbrev pub take_at : ℕ → Subscriber → Subscriber
take_at i s = record s { queue = if s.id == i then rest_of s.queue else s.queue }

-- `queue.get()` by the connection that holds the queue, where it is not empty
unfoldable pub take : ℕ → List Subscriber → List Subscriber
take i subscribers = map (take_at i) subscribers

-- What a connection has to read
unfoldable pub queue_of : ℕ → List Subscriber → Option (List Event)
queue_of i [] = none
queue_of i (s ∷ subscribers) = if s.id == i then some s.queue else queue_of i subscribers

unfoldable pub owner_of : ℕ → List Subscriber → Option String
owner_of i [] = none
owner_of i (s ∷ subscribers) = if s.id == i then some s.owner else owner_of i subscribers
