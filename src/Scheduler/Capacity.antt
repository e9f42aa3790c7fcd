-- ===== src/Scheduler/Capacity.antt =====
-- No runtime is given more work than it has room for (`_dispatch_iteration` of
-- backend/app/services/queue_worker.py).
use comfyui_image_frontend.Prelude.{
  ℕ, zero, suc, ◌+◌, ◌-◌, ◌≤◌, ◌≡◌, sym, ◌∙◌, ap, ◌⊎◌, inl, inr, String, Bool, true, false, not,
  ◌||◌, Option, some, some_inj, List, [], ◌∷◌, ◌==◌, str_eq, str_eq_iff, Bool-cases, Option-cases,
  arith, if◌then◌else◌,
}
use comfyui_image_frontend.Scheduler.Dispatch.{
  InstanceConfig, capacity, Active, load, config_of, start_task, fill, offer, offer_all,
  dispatch_order, dispatch_iteration,
}

start_task-load :
    (job i j : String) (active : List Active)
    → load (start_task job i active) j ≤ load active j + (if str_eq i j then 1 else 0)
unfolding start_task load
start_task-load job i j active = ground arith

module _ {S : Type 0} (claim : String → S → Option (String × S)) where
  fill-load :
      (n : ℕ) (i j : String) (active : List Active) (s : S)
      → load (fill claim n i active s).0 j ≤ load active j + (if str_eq i j then n else 0)
  unfolding fill
  fill-load zero i j active s = ground arith
  fill-load (suc n) i j active s = elim (Option-cases (claim i s)) [
    | inl e ↦ rw (fill, e) (ground arith)
    | inr ((job, s'), e) ↦
        rw (fill, e)
          (ground
            (arith, fill-load n i j (start_task job i active) s', start_task-load job i j active))
  ]

  offer-load :
      (configs : List InstanceConfig) (available : String → Bool) (i j : String)
      (active : List Active) (s : S) {c : InstanceConfig}
      → config_of configs j ≡ some c
      → load active j ≤ capacity c
      → load (offer claim configs available i active s).0 j ≤ capacity c
  unfolding offer
  offer-load configs available i j active s {c} e l = elim (Option-cases (config_of configs i)) [
    | inl f ↦ rw (offer, f) l
    | inr (d, f) ↦ elim (Bool-cases ((capacity d - load active i == 0) || not (available i))) [
      | inl full ↦ rw (offer, f, full) l
      | inr free ↦
          rw (offer, f, free)
            (room d f (Bool-cases (str_eq i j))
              (fill-load (capacity d - load active i) i j active s))
    ]
  ]
    where
      room :
          (d : InstanceConfig) {m : ℕ}
          → config_of configs i ≡ some d
          → (str_eq i j ≡ true) ⊎ (str_eq i j ≡ false)
          → m ≤ load active j + (if str_eq i j then capacity d - load active i else 0)
          → m ≤ capacity c
      room d f (inr apart) b = omega (arith, rw apart at b, l)
      room d f (inl same) b =
          let q : i ≡ j = (str_eq_iff i j).0 same in
          let k : capacity d ≡ capacity c =
            ap capacity (some_inj (sym f ∙ ap (config_of configs) q ∙ e)) in
          let n : load active i ≡ load active j = ap (load active) q in
          omega (arith, rw same at b, l, k, n)

  offer_all-load :
      (configs : List InstanceConfig) (available : String → Bool) (order : List String) (j : String)
      (active : List Active) (s : S) {c : InstanceConfig}
      → config_of configs j ≡ some c
      → load active j ≤ capacity c
      → load (offer_all claim configs available order active s).0 j ≤ capacity c
  unfolding offer_all
  offer_all-load configs available [] j active s e l = l
  offer_all-load configs available (i ∷ order) j active s {c} e l =
      let (active', s') = offer claim configs available i active s in
      offer_all-load configs available order j active' s' e
        (offer-load configs available i j active s e l)

-- Whatever there is to claim: a runtime that is configured and within its capacity before an
-- iteration of the dispatcher is within it afterwards.
pub dispatch_iteration-le :
    {S : Type 0} (claim : String → S → Option (String × S)) (pool : List String)
    (configs : List InstanceConfig) (available : String → Bool) (active : List Active) (s : S)
    (j : String) {c : InstanceConfig}
    → config_of configs j ≡ some c
    → load active j ≤ capacity c
    → load (dispatch_iteration claim pool configs available active s).0 j ≤ capacity c
unfolding dispatch_iteration
dispatch_iteration-le claim pool configs available active s j e l =
    offer_all-load claim configs available (dispatch_order active pool configs) j active s e l
