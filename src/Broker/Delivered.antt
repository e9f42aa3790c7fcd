-- ===== src/Broker/Delivered.antt =====
-- What a connection receives, against the log of the events that are published to its owner.
use comfyui_image_frontend.Prelude.{
  ℕ, ◌+◌, ◌≤◌, ◌≡◌, refl, sym, ap, ◌∙◌, subst, inl, inr, String, true, false, none, some, List, [],
  ◌∷◌, ◌++◌, length, length-append, arith, Bool-cases, some_inj, ◌==◌, ltb, str_eq, if◌then◌else◌,
}
use mathlib.Core.List.{append_assoc}
use comfyui_image_frontend.Broker.{
  Event, Subscriber, maxsize, put_nowait, publish, subscribe, unsubscribe, rest_of, take, queue_of,
  owner_of,
}
use comfyui_image_frontend.Broker.Subsequence.{Subsequence, done, keep_last, skip_last}

-- The abstract broker of one connection: the log of what was published to its owner since it
-- subscribed, and what it has read.
pub record Log : Type 0 where
  pub published : List Event
  pub received : List Event

-- A run of the broker beside the log of connection `i` of this owner, from its subscription on.
pub data Run (i : ℕ) (owner : String) : List Subscriber → Log → Type 0 where
  start :
      (subscribers : List Subscriber)
      → queue_of i subscribers ≡ none
      → Run i owner (subscribe i owner subscribers) (record { published = []; received = [] })
  publication :
      {subscribers : List Subscriber} {log : Log} (to : String) (event : Event)
      → Run i owner subscribers log
      → Run i owner
          (publish to event subscribers)
          (if str_eq owner to then record log { published = log.published ++ event ∷ [] } else log)
  reading :
      {subscribers : List Subscriber} {log : Log} (event : Event) (rest : List Event)
      → Run i owner subscribers log
      → queue_of i subscribers ≡ some (event ∷ rest)
      → Run i owner (take i subscribers) (record log { received = log.received ++ event ∷ [] })
  other_reading :
      {subscribers : List Subscriber} {log : Log} (j : ℕ)
      → Run i owner subscribers log
      → j == i ≡ false
      → Run i owner (take j subscribers) log
  arrival :
      {subscribers : List Subscriber} {log : Log} (j : ℕ) (whose : String)
      → Run i owner subscribers log
      → Run i owner (subscribe j whose subscribers) log
  departure :
      {subscribers : List Subscriber} {log : Log} (j : ℕ)
      → Run i owner subscribers log
      → j == i ≡ false
      → Run i owner (unsubscribe j subscribers) log

-- What an operation does to the queue of connection `i`.
Found : ℕ → String → List Event → List Subscriber → Type 0
Found i owner q subscribers =
    (queue_of i subscribers ≡ some q) × (owner_of i subscribers ≡ some owner)

Found-publish :
    (i : ℕ) (owner to : String) (event : Event) (q : List Event) (subscribers : List Subscriber)
    → Found i owner q subscribers
    → Found i owner
        (if str_eq owner to then put_nowait event q else q)
        (publish to event subscribers)
unfolding Found publish queue_of owner_of
Found-publish i owner to event q [] (h, k) = cc
Found-publish i owner to event q (s ∷ subscribers) (h, k) = elim (Bool-cases (s.id == i)) [
  | inl e ↦
      let a : s.queue ≡ q = some_inj (rw (e, queue_of) at h) in
      let b : s.owner ≡ owner = some_inj (rw (e, owner_of) at k) in
      (rw e (ap some (delivered a b)), rw e (ap some b))
  | inr e ↦
      rw e (
        Found-publish i owner to event q subscribers (rw (e, queue_of) at h, rw (e, owner_of) at k))
]
  where
    delivered :
        s.queue ≡ q
        → s.owner ≡ owner
        → (if str_eq s.owner to then put_nowait event s.queue else s.queue)
          ≡ (if str_eq owner to then put_nowait event q else q)
    delivered a b =
        ap (λ (o : String). if str_eq o to then put_nowait event s.queue else s.queue) b
        ∙ ap (λ (q : List Event). if str_eq owner to then put_nowait event q else q) a

Found-take :
    (i : ℕ) (owner : String) (q : List Event) (subscribers : List Subscriber)
    → Found i owner q subscribers
    → Found i owner (rest_of q) (take i subscribers)
unfolding Found take queue_of owner_of
Found-take i owner q [] (h, k) = cc
Found-take i owner q (s ∷ subscribers) (h, k) = elim (Bool-cases (s.id == i)) [
  | inl e ↦
      let a : s.queue ≡ q = some_inj (rw (e, queue_of) at h) in
      let b : s.owner ≡ owner = some_inj (rw (e, owner_of) at k) in
      (rw e (ap (λ (q : List Event). some (rest_of q)) a), rw e (ap some b))
  | inr e ↦ rw e (Found-take i owner q subscribers (rw (e, queue_of) at h, rw (e, owner_of) at k))
]

Found-other :
    (i j : ℕ) (owner : String) (q : List Event) (subscribers : List Subscriber)
    → j == i ≡ false
    → Found i owner q subscribers
    → Found i owner q (take j subscribers)
unfolding Found take queue_of owner_of
Found-other i j owner q [] e (h, k) = cc
Found-other i j owner q (s ∷ subscribers) e (h, k) =
    ground (arith, Found-other i j owner q subscribers)

Found-subscribe :
    (i j : ℕ) (owner whose : String) (q : List Event) (subscribers : List Subscriber)
    → Found i owner q subscribers
    → Found i owner q (subscribe j whose subscribers)
unfolding Found subscribe queue_of owner_of
Found-subscribe i j owner whose q [] (h, k) = cc
Found-subscribe i j owner whose q (s ∷ subscribers) (h, k) =
    ground (arith, Found-subscribe i j owner whose q subscribers)

Found-unsubscribe :
    (i j : ℕ) (owner : String) (q : List Event) (subscribers : List Subscriber)
    → j == i ≡ false
    → Found i owner q subscribers
    → Found i owner q (unsubscribe j subscribers)
unfolding Found unsubscribe queue_of owner_of
Found-unsubscribe i j owner q [] e (h, k) = cc
Found-unsubscribe i j owner q (s ∷ subscribers) e (h, k) =
    ground (arith, Found-unsubscribe i j owner q subscribers)

Found-new :
    (i : ℕ) (owner : String) (subscribers : List Subscriber)
    → queue_of i subscribers ≡ none
    → Found i owner [] (subscribe i owner subscribers)
unfolding Found subscribe queue_of owner_of
Found-new i owner [] h = (ground arith, ground arith)
Found-new i owner (s ∷ subscribers) h = elim (Bool-cases (s.id == i)) [
  | inl e ↦ absurd (cc (rw (e, queue_of) at h))
  | inr e ↦ rw e (Found-new i owner subscribers (rw (e, queue_of) at h))
]

-- The queue holds what the connection has not read of the log, in the log's order: some of it may be
-- missing, but nothing while the log is no longer than a queue.
pub record Implements (i : ℕ) (owner : String) (subscribers : List Subscriber) (log : Log)
    : Type 0 where
  pub queue : List Event
  pub held : queue_of i subscribers ≡ some queue
  pub owned : owner_of i subscribers ≡ some owner
  pub in_order : Subsequence (log.received ++ queue) log.published
  pub bound : length queue ≤ maxsize
  pub lossless : length log.published ≤ maxsize → log.received ++ queue ≡ log.published

put-bound :
    (q : List Event) (event : Event) → length q ≤ maxsize → length (put_nowait event q) ≤ maxsize
put-bound q event h = ground (arith, length-append q (event ∷ []))

module _ (received published q : List Event) (event : Event)
    (in_order : Subsequence (received ++ q) published)
    (lossless : length published ≤ maxsize → received ++ q ≡ published) where
  put-in_order : Subsequence (received ++ put_nowait event q) (published ++ event ∷ [])
  put-in_order = elim (Bool-cases (ltb (length q) maxsize)) [
    | inl e ↦ rw e (
        subst (λ xs. Subsequence xs (published ++ event ∷ []))
          (append_assoc received q (event ∷ [])) (keep_last event in_order))
    | inr e ↦ rw e (skip_last event in_order)
  ]

  put-lossless :
      length (published ++ event ∷ []) ≤ maxsize
      → received ++ put_nowait event q ≡ published ++ event ∷ []
  put-lossless h =
      let n : length published + 1 ≤ maxsize =
        omega (arith, length-append published (event ∷ [])) in
      let same : received ++ q ≡ published = lossless (omega arith) in
      let l : length received + length q ≡ length published =
        sym (length-append received q) ∙ ap length same in
      let room : ltb (length q) maxsize ≡ true = ground arith in
      rw room (sym (append_assoc received q (event ∷ [])) ∙ ap (λ xs. xs ++ event ∷ []) same)

publish-Implements :
    (i : ℕ) (owner to : String) (event : Event) {subscribers : List Subscriber} {log : Log}
    → Implements i owner subscribers log
    → Implements i owner
        (publish to event subscribers)
        (if str_eq owner to then record log { published = log.published ++ event ∷ [] } else log)
unfolding Found
publish-Implements i owner to event {subscribers} {log} v =
    let (a, b) = Found-publish i owner to event v.queue subscribers (v.held, v.owned) in
    elim (Bool-cases (str_eq owner to)) [
      | inl e ↦ rw e (record {
        queue = put_nowait event v.queue;
        held = rw e at a;
        owned = b;
        in_order = put-in_order log.received log.published v.queue event v.in_order v.lossless;
        bound = put-bound v.queue event v.bound;
        lossless = put-lossless log.received log.published v.queue event v.in_order v.lossless;
      })
      | inr e ↦ rw e (record {
        queue = v.queue;
        held = rw e at a;
        owned = b;
        in_order = v.in_order;
        bound = v.bound;
        lossless = v.lossless;
      })
    ]

take-Implements :
    (i : ℕ) (owner : String) (event : Event) (rest : List Event) {subscribers : List Subscriber}
    {log : Log}
    → Implements i owner subscribers log
    → queue_of i subscribers ≡ some (event ∷ rest)
    → Implements i owner (take i subscribers) (record log { received = log.received ++ event ∷ [] })
unfolding Found
take-Implements i owner event rest {subscribers} {log} v h =
    let same : v.queue ≡ event ∷ rest = some_inj (sym v.held ∙ h) in
    let (a, b) = Found-take i owner (event ∷ rest) subscribers (h, v.owned) in
    let moved : log.received ++ v.queue ≡ (log.received ++ event ∷ []) ++ rest =
      ap (λ q. log.received ++ q) same ∙ sym (append_assoc log.received (event ∷ []) rest) in
    record {
      queue = rest;
      held = a;
      owned = b;
      in_order = subst (λ xs. Subsequence xs log.published) moved v.in_order;
      bound = shorter same v.bound;
      lossless = λ n. sym moved ∙ v.lossless n;
    }
  where
    shorter : {q : List Event} → q ≡ event ∷ rest → length q ≤ maxsize → length rest ≤ maxsize
    shorter e n =
        let m : length (event ∷ rest) ≤ maxsize = subst (λ q. length q ≤ maxsize) e n in omega arith

-- The broker implements the log: in every run from a subscription on, whatever is published to
-- whomever, read, and whoever comes and goes, what the connection has read followed by what its queue
-- holds is a subsequence of what was published to its owner; the queue never holds more than 200
-- events; and as long as no more than 200 were published, nothing is missing.
pub Run-Implements :
    (i : ℕ) (owner : String) {subscribers : List Subscriber} {log : Log}
    → Run i owner subscribers log
    → Implements i owner subscribers log
unfolding Found
Run-Implements i owner (start subscribers h) =
    let (a, b) = Found-new i owner subscribers h in
    record {
      queue = [];
      held = a;
      owned = b;
      in_order = done;
      bound = omega arith;
      lossless = λ h. refl;
    }
Run-Implements i owner (publication to event r) =
    publish-Implements i owner to event (Run-Implements i owner r)
Run-Implements i owner (reading event rest r h) =
    take-Implements i owner event rest (Run-Implements i owner r) h
Run-Implements i owner (other_reading {subscribers} j r e) =
    let v = Run-Implements i owner r in
    let (a, b) = Found-other i j owner v.queue subscribers e (v.held, v.owned) in
    record {
      queue = v.queue;
      held = a;
      owned = b;
      in_order = v.in_order;
      bound = v.bound;
      lossless = v.lossless;
    }
Run-Implements i owner (arrival {subscribers} j whose r) =
    let v = Run-Implements i owner r in
    let (a, b) = Found-subscribe i j owner whose v.queue subscribers (v.held, v.owned) in
    record {
      queue = v.queue;
      held = a;
      owned = b;
      in_order = v.in_order;
      bound = v.bound;
      lossless = v.lossless;
    }
Run-Implements i owner (departure {subscribers} j r e) =
    let v = Run-Implements i owner r in
    let (a, b) = Found-unsubscribe i j owner v.queue subscribers e (v.held, v.owned) in
    record {
      queue = v.queue;
      held = a;
      owned = b;
      in_order = v.in_order;
      bound = v.bound;
      lossless = v.lossless;
    }
