-- ===== src/Admission/Fifo.antt =====
-- The order in which waiting requests are admitted.
use mathlib.Core.List.{append_assoc, append-nil}
use comfyui_image_frontend.Prelude.{
  ℕ, ◌+◌, ◌≡◌, refl, sym, ap, ◌∙◌, subst, inl, inr, Bool, true, false, not, ◌&&◌, List, [], ◌∷◌,
  ◌++◌, filter, leb, Bool-cases, arith, if◌then◌else◌,
}
use comfyui_image_frontend.Admission.{Ticket, Admission, int, admit, drain_loop, drain}
use comfyui_image_frontend.Admission.Bounded.{drain-closed, drain-open}

-- Requests for media, or the others
abbrev pub is_kind : Bool → Ticket → Bool
is_kind media t = if t.media then media else not media

record Ordered (tickets : List Ticket) (s r : Admission) : Type 0 where
  admitted : List Ticket
  runs : r.running ≡ s.running ++ admitted
  in_order :
      (media : Bool)
      → filter (is_kind media) tickets
        ≡ filter (is_kind media) admitted ++ filter (is_kind media) r.waiters
  no_media : leb s.media_limit s.media ≡ true → filter (is_kind true) admitted ≡ []

nobody :
    (tickets : List Ticket) (s : Admission) → Ordered tickets s (record s { waiters = tickets })
nobody tickets s = record {
  admitted = [];
  runs = sym (append-nil s.running);
  in_order = λ media. refl;
  no_media = λ h. refl;
}

cons-append :
    (media : Bool) (t : Ticket) (tickets admitted waiters : List Ticket)
    → filter (is_kind media) tickets
      ≡ filter (is_kind media) admitted ++ filter (is_kind media) waiters
    → filter (is_kind media) (t ∷ tickets)
      ≡ filter (is_kind media) (t ∷ admitted) ++ filter (is_kind media) waiters
cons-append media t tickets admitted waiters h = elim (Bool-cases (is_kind media t)) [
  | inl e ↦ rw e (ap (λ ts. t ∷ ts) h)
  | inr e ↦ rw e h
]

stays_waiting :
    (media : Bool) (t : Ticket) (tickets admitted waiters : List Ticket)
    → t.media ≡ true
    → filter (is_kind true) admitted ≡ []
    → filter (is_kind media) tickets
      ≡ filter (is_kind media) admitted ++ filter (is_kind media) waiters
    → filter (is_kind media) (t ∷ tickets)
      ≡ filter (is_kind media) admitted ++ filter (is_kind media) (t ∷ waiters)
stays_waiting true t tickets admitted waiters m none_in h =
    let k : is_kind true t ≡ true = rw m refl in
    rw (k, none_in) (ap (λ ts. t ∷ ts) (rw none_in at h))
stays_waiting false t tickets admitted waiters m none_in h =
    let k : is_kind false t ≡ false = rw m refl in rw k h

filter-other :
    (t : Ticket) (tickets : List Ticket)
    → t.media ≡ false
    → filter (is_kind true) (t ∷ tickets) ≡ filter (is_kind true) tickets
filter-other t tickets m = let k : is_kind true t ≡ false = rw m refl in rw k refl

still_full :
    (limit media : ℕ) (t : Ticket)
    → t.media ≡ false
    → leb limit media ≡ true
    → leb limit (media + int t.media) ≡ true
still_full limit media t m h = rw m (ground (arith, h))

drain_loop-Ordered :
    (tickets : List Ticket) (s : Admission) → Ordered tickets s (drain_loop tickets s)
unfolding drain_loop
drain_loop-Ordered [] s = nobody [] s
drain_loop-Ordered (t ∷ tickets) s = elim (Bool-cases (leb s.active_limit s.active)) [
  | inl full ↦ rw (drain_loop, full) (nobody (t ∷ tickets) s)
  | inr room ↦ elim (Bool-cases (t.media && leb s.media_limit s.media)) [
    | inl passed ↦
        let o = drain_loop-Ordered tickets s in
        let (m, over) = both t.media (leb s.media_limit s.media) passed in
        rw (drain_loop, room, passed)
          (record {
            admitted = o.admitted;
            runs = o.runs;
            in_order = λ media.
                stays_waiting media t tickets o.admitted (drain_loop tickets s).waiters m
                  (o.no_media over) (o.in_order media);
            no_media = o.no_media;
          })
    | inr fits ↦
        let o = drain_loop-Ordered tickets (admit t s) in
        rw (drain_loop, room, fits)
          (record {
            admitted = t ∷ o.admitted;
            runs = o.runs ∙ append_assoc s.running (t ∷ []) o.admitted;
            in_order = λ media.
                cons-append media t tickets o.admitted (drain_loop tickets (admit t s)).waiters
                  (o.in_order media);
            no_media = λ over.
                let other : t.media ≡ false = ground (arith, rw over at fits) in
                filter-other t o.admitted other
                ∙ o.no_media (still_full s.media_limit s.media t other over);
          })
  ]
]
  where
    both : (a b : Bool) → (a && b) ≡ true → (a ≡ true) × (b ≡ true)
    both true b h = (refl, h)
    both false b h = cc

-- What a drain admits
abbrev Admits : Admission → Admission → Type 0
Admits s r =
    (admitted : List Ticket) × (r.running ≡ s.running ++ admitted)
    × ((media : Bool)
        → filter (is_kind media) s.waiters
          ≡ filter (is_kind media) admitted ++ filter (is_kind media) r.waiters)

-- A drain admits first come, first served among the requests for media and among the others: the
-- newly running requests are, of each kind, those that waited longest, in their order, and the rest
-- of that kind waits on in its order.
pub drain-in_order :
    (s : Admission)
    → (admitted : List Ticket) × ((drain s).running ≡ s.running ++ admitted)
      × ((media : Bool)
          → filter (is_kind media) s.waiters
            ≡ filter (is_kind media) admitted ++ filter (is_kind media) (drain s).waiters)
drain-in_order s = elim (Bool-cases s.closed) [
  | inl e ↦ subst (Admits s) (drain-closed s e) ([], sym (append-nil s.running), λ media. refl)
  | inr e ↦
      let o = drain_loop-Ordered s.waiters s in
      subst (Admits s) (drain-open s e) (o.admitted, o.runs, o.in_order)
]
