-- ===== src/Admission/Bounded.antt =====
-- What holds of the admission whatever requests come, leave and give up.
use comfyui_image_frontend.Prelude.{
  ℕ, ◌+◌, ◌-◌, ◌≤◌, ◌≡◌, refl, sym, ap, ◌∙◌, subst, inl, inr, true, false, ◌||◌, List, [], ◌∷◌,
  ◌++◌, All, length, length-append, leb, Bool-cases, arith, if◌then◌else◌,
}
use comfyui_image_frontend.Admission.{
  Ticket, Admission, int, admission, drain_loop, drain, acquire, is_same, is_in, remove, release,
  give_up, close_loop, close,
}
use comfyui_image_frontend.Admission.Drained.{
  media_of, IsCounted, IsCounted-waiters, IsDrained, drain_loop-Drains,
}

-- The runs of an admission with these limits.
pub data Reach (a m q : ℕ) : Admission → Type 0 where
  start : Reach a m q (admission a m q)
  acquires : {s : Admission} (t : Ticket) → Reach a m q s → Reach a m q (acquire t s).1
  releases : {s : Admission} (t : Ticket) → Reach a m q s → Reach a m q (release t s)
  gives_up : {s : Admission} (t : Ticket) → Reach a m q s → Reach a m q (give_up t s)
  closes : {s : Admission} → Reach a m q s → Reach a m q (close s)

pub record IsSound (a m q : ℕ) (s : Admission) : Type 0 where
  pub limits : (s.active_limit ≡ a) × (s.media_limit ≡ m) × (s.queue_limit ≡ q)
  pub counted : IsCounted s
  pub drained : IsDrained s
  pub queue_bound : length s.waiters ≤ q
  pub shut : s.closed ≡ true → s.waiters ≡ []

pub drain-closed : (s : Admission) → s.closed ≡ true → s ≡ drain s
unfolding drain
drain-closed s e = sym (ap (λ b. if b then s else drain_loop s.waiters s) e)

pub drain-open : (s : Admission) → s.closed ≡ false → drain_loop s.waiters s ≡ drain s
unfolding drain
drain-open s e = sym (ap (λ b. if b then s else drain_loop s.waiters s) e)

-- A drain of an open admission, whatever the waiters are
drain-IsSound :
    {a m q : ℕ} (s : Admission)
    → (s.active_limit ≡ a) × (s.media_limit ≡ m) × (s.queue_limit ≡ q)
    → IsCounted s
    → length s.waiters ≤ q
    → (s.closed ≡ true → s.waiters ≡ [])
    → IsSound a m q (drain s)
unfolding drain
drain-IsSound s (la, lm, lq) c b shut = elim (Bool-cases s.closed) [
  | inl closed ↦ subst (IsSound _ _ _) (drain-closed s closed) (record {
    limits = (la, lm, lq);
    counted = c;
    drained = inr (subst (All _) (sym (shut closed)) tt);
    queue_bound = b;
    shut = shut;
  })
  | inr o ↦
      let d = drain_loop-Drains s.waiters s c in
      let (ka, km, kq) = d.same_limits in
      subst (IsSound _ _ _) (drain-open s o) (record {
        limits = (ka ∙ la, km ∙ lm, kq ∙ lq);
        counted = d.counted;
        drained = d.drained;
        queue_bound = omega (arith, d.shorter);
        shut = λ e. absurd (cc (sym e ∙ d.same_closed ∙ o));
      })
]

length-remove :
    (t : Ticket) (tickets : List Ticket)
    → is_in t tickets ≡ true
    → length (remove t tickets) + 1 ≡ length tickets
unfolding remove
length-remove t [] h = cc
length-remove t (u ∷ tickets) h = ground (arith, length-remove t tickets)

media_of-remove :
    (t : Ticket) (tickets : List Ticket)
    → is_in t tickets ≡ true
    → media_of (remove t tickets) + int t.media ≡ media_of tickets
unfolding remove
media_of-remove t [] h = cc
media_of-remove t (u ∷ tickets) h = elim (Bool-cases (is_same t u)) [
  | inl e ↦ rw (remove, e) (ground (arith, e))
  | inr e ↦ rw (remove, e) (omega (arith, media_of-remove t tickets (rw e at h)))
]

left_running :
    (t : Ticket) (s : Admission)
    → IsCounted s
    → is_in t s.running ≡ true
    → IsCounted (record s {
      active = s.active - 1;
      media = s.media - int t.media;
      running = remove t s.running;
    })
left_running t s c runs = record {
  active = omega (arith, c.active, length-remove t s.running runs);
  media = omega (arith, c.media, media_of-remove t s.running runs);
  active_bound = omega (arith, c.active_bound);
  media_bound = omega (arith, c.media_bound);
}

release-IsSound :
    {a m q : ℕ} (t : Ticket) (s : Admission) → IsSound a m q s → IsSound a m q (release t s)
unfolding release
release-IsSound t s v = elim (Bool-cases (is_in t s.waiters)) [
  | inl waits ↦
      rw (release, waits)
        (drain-IsSound (record s { waiters = remove t s.waiters }) v.limits
          (IsCounted-waiters s _ v.counted)
          (omega (arith, length-remove t s.waiters waits, v.queue_bound))
          (λ e. absurd (cc (rw (v.shut e) at waits))))
  | inr gone ↦ elim (Bool-cases (is_in t s.running)) [
    | inl runs ↦
        rw (release, gone, runs)
          (drain-IsSound
            (record s {
              active = s.active - 1;
              media = s.media - int t.media;
              running = remove t s.running;
            })
            v.limits (left_running t s v.counted runs) v.queue_bound v.shut)
    | inr released ↦ rw (release, gone, released) v
  ]
]

rejected-IsSound :
    {a m q : ℕ} (s : Admission)
    → IsSound a m q s
    → IsSound a m q (record s { rejected = s.rejected + 1 })
rejected-IsSound s v = record {
  limits = v.limits;
  counted = record {
    active = v.counted.active;
    media = v.counted.media;
    active_bound = v.counted.active_bound;
    media_bound = v.counted.media_bound;
  };
  drained = v.drained;
  queue_bound = v.queue_bound;
  shut = v.shut;
}

acquire-IsSound :
    {a m q : ℕ} (t : Ticket) (s : Admission) → IsSound a m q s → IsSound a m q (acquire t s).1
unfolding acquire
acquire-IsSound t s v = elim (Bool-cases (s.closed || leb s.queue_limit (length s.waiters))) [
  | inl refused ↦ rw (acquire, refused) (rejected-IsSound s v)
  | inr taken ↦
      rw (acquire, taken)
        (drain-IsSound (record s { waiters = s.waiters ++ t ∷ [] }) v.limits
          (IsCounted-waiters s _ v.counted)
          (ground (arith, length-append s.waiters (t ∷ []), v.limits.2))
          (λ e. absurd (cc (rw e at taken))))
]

is_same_self : (t : Ticket) → is_same t t ≡ true
is_same_self t = elim (Bool-cases t.media) [ inl e ↦ ground arith | inr e ↦ ground arith ]

remove-first : (t : Ticket) (tickets : List Ticket) → remove t (t ∷ tickets) ≡ tickets
unfolding remove
remove-first t tickets = rw (remove, is_same_self t) refl

release-waiting :
    (t : Ticket) (s : Admission)
    → is_in t s.waiters ≡ true
    → release t s ≡ drain (record s { waiters = remove t s.waiters })
unfolding release
release-waiting t s h = rw (release, h) refl

-- The closing releases the waiters one by one.
closed_loop :
    (tickets : List Ticket) (s : Admission)
    → s.closed ≡ true
    → s.waiters ≡ tickets
    → close_loop tickets s ≡ record s { waiters = [] }
unfolding close_loop
closed_loop [] s e w = ap (λ ws. record s { waiters = ws }) w
closed_loop (t ∷ tickets) s e w =
    ap (close_loop tickets) (released t tickets s e w)
    ∙ closed_loop tickets (record s { waiters = tickets }) e refl
  where
    released :
        (t : Ticket) (tickets : List Ticket) (s : Admission)
        → s.closed ≡ true
        → s.waiters ≡ t ∷ tickets
        → release t s ≡ record s { waiters = tickets }
    released t tickets s e w =
        let here : is_in t s.waiters ≡ true =
          subst (λ ws. is_in t ws ≡ true) (sym w) (rw (is_same_self t) refl) in
        let off : remove t s.waiters ≡ tickets =
          subst (λ ws. remove t ws ≡ tickets) (sym w) (remove-first t tickets) in
        release-waiting t s here
        ∙ sym (drain-closed (record s { waiters = remove t s.waiters }) e)
        ∙ ap (λ ws. record s { waiters = ws }) off

-- Closed, nobody waits.
close-IsSound : {a m q : ℕ} (s : Admission) → IsSound a m q s → IsSound a m q (close s)
unfolding close
close-IsSound {a} {m} {q} s v =
    subst (IsSound a m q) (sym (closed_loop s.waiters (record s { closed = true }) refl refl))
      (record {
        limits = v.limits;
        counted = record {
          active = v.counted.active;
          media = v.counted.media;
          active_bound = v.counted.active_bound;
          media_bound = v.counted.media_bound;
        };
        drained = inr tt;
        queue_bound = omega arith;
        shut = λ e. refl;
      })

-- Whatever requests are acquired, released and given up, in whatever order, and whether the admission
-- is closed meanwhile: the counters are those of the running requests and within their limits, no
-- more wait than the queue's limit, nobody waits after the closing, and whoever waits has to: all
-- places are taken, or all waiters ask for media and the places for media are taken.
pub Reach-IsSound : (a m q : ℕ) {s : Admission} → Reach a m q s → IsSound a m q s
unfolding give_up
Reach-IsSound a m q start = record {
  limits = (refl, refl, refl);
  counted = record {
    active = refl;
    media = refl;
    active_bound = omega arith;
    media_bound = omega arith;
  };
  drained = inr tt;
  queue_bound = omega arith;
  shut = λ e. refl;
}
Reach-IsSound a m q (acquires {s} t r) = acquire-IsSound t s (Reach-IsSound a m q r)
Reach-IsSound a m q (releases {s} t r) = release-IsSound t s (Reach-IsSound a m q r)
Reach-IsSound a m q (gives_up {s} t r) =
    rejected-IsSound (release t s) (release-IsSound t s (Reach-IsSound a m q r))
Reach-IsSound a m q (closes {s} r) = close-IsSound s (Reach-IsSound a m q r)
