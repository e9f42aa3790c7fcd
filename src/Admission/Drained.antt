-- ===== src/Admission/Drained.antt =====
-- The bounds of the admission, and that nobody waits who could be admitted.
use comfyui_image_frontend.Prelude.{
  ℕ, ◌+◌, ◌≤◌, ◌≡◌, refl, ◌⊎◌, inl, inr, Bool, true, false, ◌&&◌, List, [], ◌∷◌, ◌++◌, All, length,
  length-append, leb, leb→le, Bool-cases, arith,
}
use comfyui_image_frontend.Admission.{Ticket, Admission, int, admit, drain_loop}

abbrev pub media_of : List Ticket → ℕ
media_of [] = 0
media_of (t ∷ tickets) = int t.media + media_of tickets

-- The counters are those of the tickets, within the limits.
pub record IsCounted (s : Admission) : Type 0 where
  pub active : s.active ≡ length s.running
  pub media : s.media ≡ media_of s.running
  pub active_bound : s.active ≤ s.active_limit
  pub media_bound : s.media ≤ s.media_limit

-- The other fields do not count.
pub IsCounted-waiters :
    (s : Admission) (w : List Ticket) → IsCounted s → IsCounted (record s { waiters = w })
IsCounted-waiters s w c = record {
  active = c.active;
  media = c.media;
  active_bound = c.active_bound;
  media_bound = c.media_bound;
}

-- A media request waits for the share of media.
abbrev pub Blocked : ℕ → ℕ → Ticket → Type 0
Blocked media_limit media t = (t.media ≡ true) × (media_limit ≤ media)

abbrev pub IsDrained : Admission → Type 0
IsDrained s = (s.active_limit ≤ s.active) ⊎ All (Blocked s.media_limit s.media) s.waiters

-- What the loop makes of a state
pub record Drains (tickets : List Ticket) (s r : Admission) : Type 0 where
  pub counted : IsCounted r
  pub drained : IsDrained r
  pub same_limits :
      (r.active_limit ≡ s.active_limit)
      × (r.media_limit ≡ s.media_limit)
      × (r.queue_limit ≡ s.queue_limit)
  pub same_closed : r.closed ≡ s.closed
  pub grows : s.media ≤ r.media
  pub shorter : length r.waiters ≤ length tickets

media_of-append : (xs ys : List Ticket) → media_of (xs ++ ys) ≡ media_of xs + media_of ys
media_of-append [] ys = omega arith
media_of-append (t ∷ xs) ys = omega (arith, media_of-append xs ys)

admit-IsCounted :
    (t : Ticket) (s : Admission)
    → leb s.active_limit s.active ≡ false
    → (t.media && leb s.media_limit s.media) ≡ false
    → IsCounted s
    → IsCounted (admit t s)
admit-IsCounted t s a m c = record {
  active = omega (arith, c.active, length-append s.running (t ∷ []));
  media = omega (arith, c.media, media_of-append s.running (t ∷ []));
  active_bound = ground (arith, a);
  media_bound = elim (Bool-cases t.media) [
    | inl k ↦ rw k (ground (arith, rw k at m))
    | inr k ↦ rw k (omega (arith, c.media_bound))
  ];
}

pub drain_loop-Drains :
    (tickets : List Ticket) (s : Admission) → IsCounted s → Drains tickets s (drain_loop tickets s)
unfolding drain_loop
drain_loop-Drains [] s c = record {
  counted = IsCounted-waiters s _ c;
  drained = inr tt;
  same_limits = (refl, refl, refl);
  same_closed = refl;
  grows = omega arith;
  shorter = omega arith;
}
drain_loop-Drains (t ∷ tickets) s c = elim (Bool-cases (leb s.active_limit s.active)) [
  | inl full ↦
      rw (drain_loop, full)
        (record {
          counted = IsCounted-waiters s _ c;
          drained = inl (leb→le s.active_limit s.active full);
          same_limits = (refl, refl, refl);
          same_closed = refl;
          grows = omega arith;
          shorter = omega arith;
        })
  | inr room ↦ elim (Bool-cases (t.media && leb s.media_limit s.media)) [
    | inl passed ↦
        let d = drain_loop-Drains tickets s c in
        rw (drain_loop, room, passed)
          (record {
            counted = IsCounted-waiters (drain_loop tickets s) _ d.counted;
            drained = elim d.drained [
              | inl full ↦ inl full
              | inr blocked ↦ inr (
                (
                  (both t.media (leb s.media_limit s.media) passed).0,
                  still (both t.media (leb s.media_limit s.media) passed).1 d.grows
                      (d.same_limits.1),
                ),
                blocked,
              )
            ];
            same_limits = d.same_limits;
            same_closed = d.same_closed;
            grows = d.grows;
            shorter = omega (arith, d.shorter);
          })
    | inr fits ↦
        let d = drain_loop-Drains tickets (admit t s) (admit-IsCounted t s room fits c) in
        rw (drain_loop, room, fits)
          (record {
            counted = d.counted;
            drained = d.drained;
            same_limits = d.same_limits;
            same_closed = d.same_closed;
            grows = omega (arith, d.grows);
            shorter = omega (arith, d.shorter);
          })
  ]
]
  where
    both : (a b : Bool) → (a && b) ≡ true → (a ≡ true) × (b ≡ true)
    both true b h = (refl, h)
    both false b h = cc

    still :
        {media limit : ℕ}
        → leb s.media_limit s.media ≡ true
        → s.media ≤ media
        → limit ≡ s.media_limit
        → limit ≤ media
    still h g e = omega (arith, leb→le s.media_limit s.media h)
