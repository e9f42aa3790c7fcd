-- ===== src/Estimates/Placed.antt =====
-- The simulation ends, and places every image of the account if it places all it needs to.
use mathlib.Core.List.{Memᴰ}
use comfyui_image_frontend.Prelude.{
  ℕ, zero, suc, ◌+◌, ◌-◌, ◌<◌, ◌≡◌, refl, sym, ap, subst, inl, inr, String, true, false, ◌||◌,
  Option, none, some, List, [], ◌∷◌, ◌++◌, filter, length, length-append, is_empty, arith,
  Bool-cases, Option-cases, some_inj, ◌==◌, str_eq, str_eq_iff, length-filter-le, if◌then◌else◌,
}
use comfyui_image_frontend.Prelude.Members.{Memᴰ-of_filter}
use comfyui_image_frontend.Database.{Generation}
use comfyui_image_frontend.Scheduler.Pool.{Pool}
use comfyui_image_frontend.Estimates.Blocked.{
  next_placed-member, occupy-none, IsObstacle, place_next-IsObstacle,
}
use comfyui_image_frontend.Estimates.{
  free_at, candidates, soonest, eligible_hosts, Timeline, Simulation, Forecast, unknown, known,
  next_placed, remove_job, is_owned, place_on, place_next, simulate, is_pending, simulate_pending,
}

-- The id is the primary key.
abbrev pub DistinctJobs : List Generation → Type 0
DistinctJobs xs = (a b : Generation) → Memᴰ a xs → Memᴰ b xs → a.id ≡ b.id → a ≡ b

abbrev pub count_owned : String → List Generation → ℕ
count_owned owner xs = length (filter (is_owned owner) xs)

Memᴰ-of_remove :
    (i : String) (a : Generation) (xs : List Generation) → Memᴰ a (remove_job i xs) → Memᴰ a xs
unfolding remove_job
Memᴰ-of_remove i a [] m = m
Memᴰ-of_remove i a (x ∷ xs) m = elim (Bool-cases (str_eq x.id i)) [
  | inl e ↦ Memᴰ.tail (rw e at m)
  | inr e ↦ later (rw e at m) (Memᴰ-of_remove i a xs)
]
  where
    later : Memᴰ a (x ∷ remove_job i xs) → (Memᴰ a (remove_job i xs) → Memᴰ a xs) → Memᴰ a (x ∷ xs)
    later (Memᴰ.head q) ih = Memᴰ.head q
    later (Memᴰ.tail n) ih = Memᴰ.tail (ih n)

-- One job is removed: the one that is meant.
pub record IsRemoved (owner : String) (job : Generation) (xs : List Generation) : Type 0 where
  pub shorter : length (remove_job job.id xs) + 1 ≡ length xs
  pub counted :
      count_owned owner (remove_job job.id xs) + (if is_owned owner job then 1 else 0)
      ≡ count_owned owner xs

remove_job-IsRemoved :
    (owner : String) (job : Generation) (xs : List Generation)
    → DistinctJobs xs
    → Memᴰ job xs
    → IsRemoved owner job xs
unfolding remove_job
remove_job-IsRemoved owner job [] d m = elim m [ ]
remove_job-IsRemoved owner job (x ∷ xs) d m = elim (Bool-cases (str_eq x.id job.id)) [
  | inl e ↦
      let q : x ≡ job = d x job (Memᴰ.head refl) m ((str_eq_iff x.id job.id).0 e) in
      let o : is_owned owner x ≡ is_owned owner job = ap (is_owned owner) q in
      record { shorter = rw e (omega arith); counted = rw e (ground arith) }
  | inr e ↦
      let ih =
        remove_job-IsRemoved owner job xs (λ a b k n. d a b (Memᴰ.tail k) (Memᴰ.tail n))
          (behind e m) in
      record {
        shorter = rw e (omega (arith, ih.shorter));
        counted = rw e (ground (arith, ih.counted));
      }
]
  where
    behind : str_eq x.id job.id ≡ false → Memᴰ job (x ∷ xs) → Memᴰ job xs
    behind e (Memᴰ.head q) =
        cc (e, (str_eq_iff x.id job.id).1 (ap (λ (g : Generation). g.id) (sym q)))
    behind e (Memᴰ.tail n) = n

nobody : (owner : String) (xs : List Generation) → is_empty xs ≡ true → count_owned owner xs ≡ 0
nobody owner [] h = refl
nobody owner (x ∷ xs) h = cc

module _ (duration : Generation → String → Option ℕ) (pool : Pool) (owner : String) where
  -- What a placement changes
  record IsPlaced (s : Simulation) (job : Generation) (s' : Simulation) : Type 0 where
    pending : s'.pending ≡ remove_job job.id s.pending
    finished : length s'.finishes ≡ length s.finishes + (if is_owned owner job then 1 else 0)
    free : (i : String) → free_at i s'.timeline ≡ none → free_at i s.timeline ≡ none
    remaining :
        s'.remaining_owned
        ≡ (if is_owned owner job then s.remaining_owned - 1 else s.remaining_owned)

  place-IsPlaced :
      (s : Simulation) (turn : String) (job : Generation) (s' : Simulation)
      → place_on duration pool owner s turn job ≡ some s'
      → IsPlaced s job s'
  unfolding place_on
  place-IsPlaced s turn job s' h =
      elim (Option-cases
        (soonest (candidates pool.member_ids s.timeline (eligible_hosts pool job)))) [
          | inl e ↦ absurd (cc (rw (e, place_on) at h))
          | inr ((runtime, (start, n)), e) ↦ elim (Option-cases (duration job runtime)) [
            | inl k ↦ absurd (cc (rw (e, k, place_on) at h))
            | inr (d, k) ↦ subst (IsPlaced s job) (some_inj (rw (e, k, place_on) at h)) (record {
              pending = refl;
              finished = more s.finishes (start + d, d);
              free = λ i. occupy-none i runtime d s.timeline;
              remaining = refl;
            })
          ]
        ]
    where
      more :
          (xs : List (ℕ × ℕ)) (x : ℕ × ℕ)
          → length (if is_owned owner job then xs ++ x ∷ [] else xs)
            ≡ length xs + (if is_owned owner job then 1 else 0)
      more xs x = ground (arith, length-append xs (x ∷ []))

  -- What the loop keeps.
  record IsCounted (s : Simulation) : Type 0 where
    ids : DistinctJobs s.pending
    counted : s.remaining_owned ≡ count_owned owner s.pending

  place_next-IsCounted :
      (s s' : Simulation)
      → IsCounted s
      → place_next duration pool owner s ≡ some s'
      → IsCounted s'
        × (length s'.pending + 1 ≡ length s.pending)
        × (length s'.finishes + s'.remaining_owned ≡ length s.finishes + s.remaining_owned)
        × ((i : String) → free_at i s'.timeline ≡ none → free_at i s.timeline ≡ none)
        × ((g : Generation) → Memᴰ g s'.pending → Memᴰ g s.pending)
  unfolding place_next
  place_next-IsCounted s s' inv h = elim (Option-cases (next_placed s.last s.pending)) [
    | inl e ↦ absurd (cc (rw (e, place_next) at h))
    | inr ((turn, job), e) ↦
        let p = place-IsPlaced s turn job s' (rw (e, place_next) at h) in
        let r =
          remove_job-IsRemoved owner job s.pending inv.ids
            (next_placed-member s.last s.pending turn job e) in
        let pending = p.pending in
        let c : count_owned owner s'.pending ≡ count_owned owner (remove_job job.id s.pending) =
          ap (count_owned owner) pending in
        let l : length s'.pending ≡ length (remove_job job.id s.pending) = ap length pending in
        (
          record {
            ids = λ a b m n.
                inv.ids a b (Memᴰ-of_remove job.id a s.pending (subst (Memᴰ a) pending m))
                  (Memᴰ-of_remove job.id b s.pending (subst (Memᴰ b) pending n));
            counted = ground (arith, p.remaining, r.counted, inv.counted, c);
          },
          omega (arith, l, r.shorter),
          ground (arith, p.finished, p.remaining, r.counted, inv.counted),
          p.free,
          λ g m. Memᴰ-of_remove job.id g s.pending (subst (Memᴰ g) pending m),
        )
  ]

  -- Every image of the account has its finishing time, or a pending image has no host or no duration.
  abbrev pub Covers : Timeline → List Generation → ℕ → Option Forecast → Type 0
  Covers timeline pending n none = ⊥
  Covers timeline pending n (some unknown) =
      (job : Generation) × Memᴰ job pending × IsObstacle duration pool timeline job
  Covers timeline pending n (some (known finishes)) = length finishes ≡ n

  widen :
      (timeline timeline' : Timeline) (pending pending' : List Generation) (n : ℕ)
      (f : Option Forecast)
      → ((i : String) → free_at i timeline' ≡ none → free_at i timeline ≡ none)
      → ((g : Generation) → Memᴰ g pending' → Memᴰ g pending)
      → Covers timeline' pending' n f
      → Covers timeline pending n f
  widen timeline timeline' pending pending' n none t p c = c
  widen timeline timeline' pending pending' n (some (known finishes)) t p c = c
  widen timeline timeline' pending pending' n (some unknown) t p (job, m, o) =
      (job, p job m, wider o)
    where
      wider : IsObstacle duration pool timeline' job → IsObstacle duration pool timeline job
      wider (inl h) = inl (λ i m. t i (h i m))
      wider (inr d) = inr d

  simulate-Covers :
      (fuel : ℕ) (s : Simulation)
      → IsCounted s
      → length s.pending < fuel
      → Covers s.timeline s.pending
          (length s.finishes + s.remaining_owned)
          (simulate duration pool owner fuel s)
  unfolding simulate
  simulate-Covers zero s inv h = absurd (omega arith)
  simulate-Covers (suc f) s inv h =
      elim (Bool-cases (is_empty s.pending || s.remaining_owned == 0)) [
        | inl e ↦ rw e (finished s inv e)
        | inr e ↦ elim (Option-cases (place_next duration pool owner s)) [
          | inl k ↦ rw (e, k) (place_next-IsObstacle duration pool owner s (still_pending s e) k)
          | inr (s', k) ↦
              let (inv', shorter, same, free, left) = place_next-IsCounted s s' inv k in
              rw (e, k)
                (subst
                  (λ (n : ℕ). Covers s.timeline s.pending n (simulate duration pool owner f s'))
                  same
                  (widen s.timeline s'.timeline s.pending s'.pending _
                    (simulate duration pool owner f s') free left
                    (simulate-Covers f s' inv' (omega (arith, shorter)))))
        ]
      ]
    where
      still_pending :
          (s : Simulation)
          → is_empty s.pending || s.remaining_owned == 0 ≡ false
          → is_empty s.pending ≡ false
      still_pending s e = ground arith

      finished :
          (s : Simulation)
          → IsCounted s
          → is_empty s.pending || s.remaining_owned == 0 ≡ true
          → length s.finishes ≡ length s.finishes + s.remaining_owned
      finished s inv e = ground (arith, inv.counted, nobody owner s.pending)

  -- The simulation of the queue ends: fuel for one round more than there are jobs is enough. Its result
  -- has a finishing time more for each pending image of the account; or it is unknown, and then
  -- some pending image has no eligible host in the timeline, or an eligible host on which its duration is
  -- unknown. The ids of the jobs must be distinct.
  pub simulate_pending-Covers :
      (last : Option String) (timeline : Timeline) (finishes : List (ℕ × ℕ))
      (jobs : List Generation)
      → DistinctJobs jobs
      → Covers timeline
          (filter (is_pending timeline) jobs)
          (length finishes + count_owned owner (filter (is_pending timeline) jobs))
          (simulate_pending duration pool owner (length jobs + 1) last timeline finishes jobs)
  unfolding simulate_pending
  simulate_pending-Covers last timeline finishes jobs d =
      let pending : List Generation = filter (is_pending timeline) jobs in
      simulate-Covers (length jobs + 1)
        (record {
          pending = pending;
          last = last;
          timeline = timeline;
          finishes = finishes;
          remaining_owned = count_owned owner pending;
        })
        (record {
          ids = λ a b m n.
              d a b (Memᴰ-of_filter (is_pending timeline) a jobs m).0
                (Memᴰ-of_filter (is_pending timeline) b jobs n).0;
          counted = refl;
        })
        (omega (arith, length-filter-le (is_pending timeline) jobs))
