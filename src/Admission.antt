-- ===== src/Admission.antt =====
-- The admission of HTTP requests (backend/app/admission.py). The flags of a ticket are the list that
-- it stands in: a ticket of `waiters` is neither admitted nor released, one of `running` is admitted,
-- and one of neither is released. The future of a ticket is set when the ticket leaves `waiters`.
pub mod Drained
pub mod Bounded
pub mod Fifo
use comfyui_image_frontend.Prelude.{
  ℕ, ◌+◌, ◌-◌, Bool, true, false, not, ◌&&◌, ◌||◌, List, [], ◌∷◌, ◌++◌, any, filter, length, ◌==◌,
  leb, if◌then◌else◌,
}

pub record Ticket : Type 0 where
  pub id : ℕ
  pub media : Bool

pub record Admission : Type 0 where
  pub active_limit : ℕ
  pub media_limit : ℕ
  pub queue_limit : ℕ
  pub active : ℕ
  pub media : ℕ
  pub rejected : ℕ
  pub accepted : ℕ
  pub closed : Bool
  pub waiters : List Ticket
  pub running : List Ticket

-- Admission.__init__
abbrev pub admission : ℕ → ℕ → ℕ → Admission
admission active_limit media_limit queue_limit = record {
  active_limit = active_limit;
  media_limit = media_limit;
  queue_limit = queue_limit;
  active = 0;
  media = 0;
  rejected = 0;
  accepted = 0;
  closed = false;
  waiters = [];
  running = [];
}

abbrev pub int : Bool → ℕ
int b = if b then 1 else 0

-- The admission of a ticket that the loop took off the waiters
abbrev pub admit : Ticket → Admission → Admission
admit ticket s = record s {
  active = s.active + 1;
  media = s.media + int ticket.media;
  accepted = s.accepted + 1;
  running = s.running ++ ticket ∷ [];
}

-- The loop of `drain` over the waiters; what it passes over stays waiting.
unfoldable pub drain_loop : List Ticket → Admission → Admission
drain_loop [] s = record s { waiters = [] }
drain_loop (ticket ∷ tickets) s = elim (leb s.active_limit s.active) [
  | true ↦ record s { waiters = ticket ∷ tickets }
  | false ↦ elim (ticket.media && leb s.media_limit s.media) [
    | true ↦ let rest = drain_loop tickets s in record rest { waiters = ticket ∷ rest.waiters }
    | false ↦ drain_loop tickets (admit ticket s)
  ]
]

unfoldable pub drain : Admission → Admission
unfolding drain_loop
drain s = if s.closed then s else drain_loop s.waiters s

-- The start of `acquire`: whether the request may wait, and the state afterwards
unfoldable pub acquire : Ticket → Admission → Bool × Admission
unfolding drain
acquire ticket s =
    if s.closed || leb s.queue_limit (length s.waiters)
    then (false, record s { rejected = s.rejected + 1 })
    else (true, drain (record s { waiters = s.waiters ++ ticket ∷ [] }))

-- Whether both are the same object
abbrev pub is_same : Ticket → Ticket → Bool
is_same a b = a.id == b.id && (if a.media then b.media else not b.media)

abbrev pub is_in : Ticket → List Ticket → Bool
is_in ticket tickets = any (is_same ticket) tickets

unfoldable pub remove : Ticket → List Ticket → List Ticket
remove ticket [] = []
remove ticket (t ∷ tickets) = if is_same ticket t then tickets else t ∷ remove ticket tickets

unfoldable pub release : Ticket → Admission → Admission
unfolding drain remove
release ticket s =
    if is_in ticket s.waiters
    then drain (record s { waiters = remove ticket s.waiters })
    else if is_in ticket s.running
    then drain (record s {
      active = s.active - 1;
      media = s.media - int ticket.media;
      running = remove ticket s.running;
    })
    else s

-- The end of an `acquire` that times out or is cancelled
unfoldable pub give_up : Ticket → Admission → Admission
unfolding release
give_up ticket s = let s' = release ticket s in record s' { rejected = s'.rejected + 1 }

unfoldable pub close_loop : List Ticket → Admission → Admission
unfolding release
close_loop [] s = s
close_loop (ticket ∷ tickets) s = close_loop tickets (release ticket s)

unfoldable pub close : Admission → Admission
unfolding close_loop
close s = close_loop s.waiters (record s { closed = true })
