-- ===== src/Estimates/Blocked.antt =====
-- Why the simulation of the queue cannot place an image.
use mathlib.Core.List.{Memᴰ}
use comfyui_image_frontend.Prelude.{
  ℕ, ◌<◌, ◌≡◌, refl, sym, ap, ◌∙◌, subst, ◌⊎◌, inl, inr, String, true, false, Option, none, some,
  List, [], ◌∷◌, map, filter, length, is_empty, arith, Bool-cases, Option-cases, some_inj, str_eq,
  str_eq_iff,
}
use comfyui_image_frontend.Prelude.Members.{Memᴰ-of_filter, Memᴰ-map, Memᴰ-of_map, Memᴰ-filter}
use comfyui_image_frontend.Database.{Generation}
use comfyui_image_frontend.Scheduler.Pool.{Pool}
use comfyui_image_frontend.Scheduler.Turn.{First, owner_order, next_owner}
use comfyui_image_frontend.Scheduler.Owners.{owners_of, Memᴰ-owner_order, Memᴰ-of_owner_order}
use comfyui_image_frontend.Scheduler.Place.{lt-get, get-member, first_turn}
use comfyui_image_frontend.Scheduler.Claim.{image_rank, first_by}
use comfyui_image_frontend.Scheduler.Line.{IsFirst, first_by-IsFirst}
use comfyui_image_frontend.Estimates.{
  Candidate, candidates, frees_sooner, soonest_from, soonest, eligible_hosts, Timeline, free_at,
  occupy, Simulation, next_placed, is_owned, place_on, place_next,
}

-- Where images wait, one of them is next.
module _ (last : Option String) (pending : List Generation) where
  abbrev jobs : List First
  jobs = map (λ g. (g.owner_id, g.queue_seq)) pending

  abbrev owner_order_now : List String
  owner_order_now = owner_order jobs

  turn_of :
      (g : Generation)
      → Memᴰ g pending
      → (o : String) × (next_owner last owner_order_now ≡ some o) × Memᴰ o (owners_of jobs)
  turn_of g m =
      let f : Generation → First = λ g. (g.owner_id, g.queue_seq) in
      let n : Memᴰ g.owner_id (owners_of jobs) =
        Memᴰ-map (λ (j : First). j.0) (f g) jobs (Memᴰ-map f g pending m) in
      let (p, l, e) =
        first_turn owner_order_now last (not_empty (Memᴰ-owner_order g.owner_id jobs n)) in
      let (o, e') = lt-get owner_order_now p l in
      (o, e ∙ e', Memᴰ-of_owner_order o jobs (get-member owner_order_now p e'))
    where
      not_empty : {k : String} {xs : List String} → Memᴰ k xs → 0 < length xs
      not_empty {xs = []} m = elim m [ ]
      not_empty {xs = x ∷ xs} m = omega arith

  owner-pending :
      (o : String)
      → Memᴰ o (owners_of jobs)
      → (g : Generation) × Memᴰ g pending × (is_owned o g ≡ true)
  owner-pending o m =
      let (j, n, e) = Memᴰ-of_map _ o jobs m in
      let (g, k, e') = Memᴰ-of_map _ j pending n in
      (g, k, (str_eq_iff g.owner_id o).1 (sym (e ∙ ap (λ (j : First). j.0) e')))

  next_placed-some :
      (g : Generation)
      → Memᴰ g pending
      → (o : String) × (job : Generation) × (next_placed last pending ≡ some (o, job))
  unfolding next_placed
  next_placed-some g m =
      let (o, e, n) = turn_of g m in
      let (h, k, mine) = owner-pending o n in
      let found = Memᴰ-filter (is_owned o) h pending k mine in
      elim (Option-cases (first_by image_rank (filter (is_owned o) pending))) [
        | inl none_first ↦
            let empty : filter (is_owned o) pending ≡ [] =
              subst (IsFirst image_rank (filter (is_owned o) pending)) none_first
                (first_by-IsFirst image_rank (filter (is_owned o) pending)) in
            absurd (none_in (subst (Memᴰ h) empty found))
        | inr (job, e') ↦ (o, job, rw (next_placed, e, e') refl)
      ]
    where
      none_in : {h : Generation} → ¬ Memᴰ h []
      none_in m = elim m [ ]

-- The image that is next is pending.
pub next_placed-member :
    (last : Option String) (pending : List Generation) (o : String) (job : Generation)
    → next_placed last pending ≡ some (o, job)
    → Memᴰ job pending
unfolding next_placed
next_placed-member last pending o job h =
    elim (Option-cases
      (next_owner last (owner_order (map (λ g. (g.owner_id, g.queue_seq)) pending)))) [
        | inl e ↦ absurd (cc (rw (e, next_placed) at h))
        | inr (p, e) ↦ elim (Option-cases (first_by image_rank (filter (is_owned p) pending))) [
          | inl k ↦ absurd (cc (rw (e, k, next_placed) at h))
          | inr (g, k) ↦
              let q : g ≡ job =
                ap (λ (r : String × Generation). r.1) (some_inj (rw (e, k, next_placed) at h)) in
              let f =
                subst (IsFirst image_rank (filter (is_owned p) pending)) k
                  (first_by-IsFirst image_rank (filter (is_owned p) pending)) in
              subst (λ (g : Generation). Memᴰ g pending) q
                (Memᴰ-of_filter (is_owned p) g pending (f.0)).0
        ]
      ]

-- A candidate is a host with the time when it is free.
candidates-none :
    (order : List String) (timeline : Timeline) (hosts : List String)
    → candidates order timeline hosts ≡ []
    → (i : String) → Memᴰ i hosts
    → free_at i timeline ≡ none
candidates-none order timeline [] e i m = elim m [ ]
candidates-none order timeline (h ∷ hosts) e i m = elim (Option-cases (free_at h timeline)) [
  | inr (t, k) ↦ absurd (cc (rw (candidates, k) at e))
  | inl k ↦ at m k (candidates-none order timeline hosts (rw (candidates, k) at e) i)
]
  where
    at :
        Memᴰ i (h ∷ hosts)
        → free_at h timeline ≡ none
        → (Memᴰ i hosts → free_at i timeline ≡ none)
        → free_at i timeline ≡ none
    at (Memᴰ.head q) k f = ap (λ j. free_at j timeline) q ∙ k
    at (Memᴰ.tail n) k f = f n

candidates-host :
    (order : List String) (timeline : Timeline) (hosts : List String) (c : Candidate)
    → Memᴰ c (candidates order timeline hosts)
    → Memᴰ c.0 hosts
candidates-host order timeline [] c m = elim m [ ]
candidates-host order timeline (h ∷ hosts) c m = elim (Option-cases (free_at h timeline)) [
  | inl k ↦ Memᴰ.tail (candidates-host order timeline hosts c (rw (candidates, k) at m))
  | inr (t, k) ↦ later (rw (candidates, k) at m) (candidates-host order timeline hosts c)
]
  where
    later :
        {d : ℕ × ℕ}
        → Memᴰ c ((h, d) ∷ candidates order timeline hosts)
        → (Memᴰ c (candidates order timeline hosts) → Memᴰ c.0 hosts)
        → Memᴰ c.0 (h ∷ hosts)
    later (Memᴰ.head q) f = Memᴰ.head (ap (λ (c : Candidate). c.0) q)
    later (Memᴰ.tail n) f = Memᴰ.tail (f n)

soonest-member : (c : Candidate) (cs : List Candidate) → soonest cs ≡ some c → Memᴰ c cs
unfolding soonest_from
soonest-member c [] e = cc
soonest-member c (b ∷ rest) e = subst (λ x. Memᴰ x (b ∷ rest)) (some_inj e) (from b rest)
  where
    from : (b : Candidate) (rest : List Candidate) → Memᴰ (soonest_from b rest) (b ∷ rest)
    from b [] = Memᴰ.head refl
    from b (d ∷ rest) = elim (Bool-cases (frees_sooner d b)) [
      | inl sooner ↦ rw (soonest_from, sooner) (Memᴰ.tail (from d rest))
      | inr later ↦ rw (soonest_from, later) (passed (from b rest))
    ]
      where
        passed : {c : Candidate} → Memᴰ c (b ∷ rest) → Memᴰ c (b ∷ d ∷ rest)
        passed (Memᴰ.head q) = Memᴰ.head q
        passed (Memᴰ.tail n) = Memᴰ.tail (Memᴰ.tail n)

pub occupy-none :
    (i j : String) (d : ℕ) (timeline : Timeline)
    → free_at i (occupy j d timeline) ≡ none
    → free_at i timeline ≡ none
occupy-none i j d [] e = e
occupy-none i j d ((k, t) ∷ rest) e = elim (Bool-cases (str_eq k j)) [
  | inl same ↦ ground (arith, str_eq_iff k j)
  | inr other ↦ ground (arith, occupy-none i j d rest)
]

module _ (duration : Generation → String → Option ℕ) (pool : Pool) where
  -- Why the estimate is unknown: no host of a pending job is in the timeline, or the duration on a host
  -- is not known.
  abbrev pub IsObstacle : Timeline → Generation → Type 0
  IsObstacle timeline job =
      ((i : String) → Memᴰ i (eligible_hosts pool job) → free_at i timeline ≡ none)
      ⊎ ((i : String) × Memᴰ i (eligible_hosts pool job) × (duration job i ≡ none))

module _ (duration : Generation → String → Option ℕ) (pool : Pool) (owner : String) where
  place_on-IsObstacle :
      (s : Simulation) (turn : String) (job : Generation)
      → place_on duration pool owner s turn job ≡ none
      → IsObstacle duration pool s.timeline job
  unfolding place_on
  place_on-IsObstacle s turn job h =
      elim (Option-cases
        (soonest (candidates pool.member_ids s.timeline (eligible_hosts pool job)))) [
          | inl e ↦ inl (
              candidates-none pool.member_ids s.timeline (eligible_hosts pool job) (no_soonest _ e))
          | inr ((runtime, (start, n)), e) ↦ elim (Option-cases (duration job runtime)) [
            | inl k ↦ inr (
              runtime,
              candidates-host pool.member_ids s.timeline (eligible_hosts pool job) _
                  (soonest-member _ _ e),
              k,
            )
            | inr (d, k) ↦ absurd (cc (rw (e, k, place_on) at h))
          ]
        ]
    where
      no_soonest : (cs : List Candidate) → soonest cs ≡ none → cs ≡ []
      no_soonest [] e = refl
      no_soonest (c ∷ cs) e = cc

  -- What stops the simulation while images are pending.
  pub place_next-IsObstacle :
      (s : Simulation)
      → is_empty s.pending ≡ false
      → place_next duration pool owner s ≡ none
      → (job : Generation) × Memᴰ job s.pending × IsObstacle duration pool s.timeline job
  unfolding place_next
  place_next-IsObstacle s e k = at s.pending refl e
    where
      at :
          (pending : List Generation)
          → s.pending ≡ pending
          → is_empty pending ≡ false
          → (job : Generation) × Memᴰ job s.pending × IsObstacle duration pool s.timeline job
      at [] q e = cc
      at (g ∷ gs) q e =
          let (o, job, f) =
            next_placed-some s.last s.pending g (subst (Memᴰ g) (sym q) (Memᴰ.head refl)) in
          (
            job,
            next_placed-member s.last s.pending o job f,
            place_on-IsObstacle s o job (rw (f, place_next) at k),
          )
