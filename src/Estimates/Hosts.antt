-- ===== src/Estimates/Hosts.antt =====
-- The estimate and the dispatcher agree on where a job can run.
use mathlib.Core.List.{Memᴰ}
use comfyui_image_frontend.Prelude.{
  ◌≡◌, refl, sym, ap, ◌∙◌, ◌⊎◌, inl, inr, String, Bool, true, false, ◌&&◌, ◌||◌, Option, none, some,
  List, [], ◌∷◌, any, filter, arith, Bool-cases, str_eq, str_eq_iff, if◌then◌else◌,
}
use comfyui_image_frontend.Database.{Generation}
use comfyui_image_frontend.Scheduler.Pool.{
  Pool, WorkflowProfile, sql_eq, carries, is_member, eligible, claimable,
}
use comfyui_image_frontend.Estimates.{
  replicates, has_no_source, is_legacy, is_carried, eligible_hosts,
}

any-cong :
    {A : Type 0} (p q : A → Bool) (xs : List A)
    → ((a : A) → Memᴰ a xs → p a ≡ q a)
    → any p xs ≡ any q xs
any-cong p q [] h = refl
any-cong p q (x ∷ xs) h = rw (h x (Memᴰ.head refl), any-cong p q xs (λ a m. h a (Memᴰ.tail m))) refl

any-none : {A : Type 0} (xs : List A) → any (λ (a : A). false) xs ≡ false
any-none [] = refl
any-none (x ∷ xs) = any-none xs

any-at :
    {A : Type 0} (p : A → Bool) (a : A) (xs : List A) → Memᴰ a xs → p a ≡ true → any p xs ≡ true
any-at p a [] m h = elim m [ ]
any-at p a (x ∷ xs) (Memᴰ.head q) h = let e : p x ≡ true = ap p (sym q) ∙ h in ground arith
any-at p a (x ∷ xs) (Memᴰ.tail m) h = ground (arith, any-at p a xs m h)

-- Whether a text is left by a filter
any-filter :
    (w : String) (p : String → Bool) (xs : List String)
    → any (str_eq w) (filter p xs) ≡ (any (str_eq w) xs && p w)
any-filter w p [] = refl
any-filter w p (x ∷ xs) = elim (Bool-cases (str_eq w x)) [
  | inl e ↦ let q : p w ≡ p x = ap p ((str_eq_iff w x).0 e) in ground (arith, any-filter w p xs)
  | inr e ↦ ground (arith, any-filter w p xs)
]

abbrev lacks_publication : WorkflowProfile → Bool
lacks_publication p = elim p.publication_id [ none ↦ true | some s ↦ false ]

sql_eq-none : (o : Option String) → sql_eq o none ≡ false
sql_eq-none none = refl
sql_eq-none (some s) = refl

-- The profile of a generation is as it was when the generation was accepted, or is of before
-- publications.
pub record IsAsAccepted (pool : Pool) (g : Generation) (accepted : WorkflowProfile) : Type 0 where
  pub found : Memᴰ accepted pool.profiles
  pub named : accepted.id ≡ g.workflow_profile_id
  pub only :
      (p : WorkflowProfile) → Memᴰ p pool.profiles → p.id ≡ g.workflow_profile_id → p ≡ accepted
  pub revision :
      (accepted.source_id ≡ none)
      ⊎ ((source : String) × (accepted.source_id ≡ some source)
          × (accepted.publication_id ≡ some g.workflow_version)
          × (accepted.ui_graph_sha256 ≡ g.ui_graph_sha256)
          × (accepted.api_graph_sha256 ≡ g.api_graph_sha256)
          × (accepted.manifest_sha256 ≡ some g.contract_sha256))

module _ (pool : Pool) (g : Generation) (accepted : WorkflowProfile)
    (as_accepted : IsAsAccepted pool g accepted) (worker_id : String) where
  same_name : str_eq accepted.id g.workflow_profile_id ≡ true
  same_name = (str_eq_iff accepted.id g.workflow_profile_id).1 as_accepted.named

  -- A test of the profiles of this name is a test of the accepted one.
  any-accepted :
      (p : WorkflowProfile → Bool)
      → any (λ a. str_eq a.id g.workflow_profile_id && p a) pool.profiles ≡ p accepted
  any-accepted p = elim (Bool-cases (p accepted)) [
    | inl e ↦
        any-at (λ a. str_eq a.id g.workflow_profile_id && p a) accepted pool.profiles
          as_accepted.found (rw (same_name, e) refl)
        ∙ sym e
    | inr e ↦
        any-cong (λ a. str_eq a.id g.workflow_profile_id && p a) (λ a. false) pool.profiles
          (λ a m. elim (Bool-cases (str_eq a.id g.workflow_profile_id)) [
            | inl n ↦
                rw n (ap p (as_accepted.only a m ((str_eq_iff a.id g.workflow_profile_id).0 n)) ∙ e)
            | inr n ↦ rw n refl
          ])
        ∙ any-none pool.profiles
        ∙ sym e
  ]

  carried-eq : is_carried pool g worker_id ≡ any (replicates worker_id accepted) pool.profiles
  carried-eq = any-accepted (λ a. any (replicates worker_id a) pool.profiles)

  legacy-eq : is_legacy pool g ≡ has_no_source accepted
  legacy-eq = any-accepted has_no_source

  -- The dispatcher's test of a revision, at the profile that it calls accepted
  abbrev same_revision : WorkflowProfile → WorkflowProfile → Bool
  same_revision a replica =
      sql_eq replica.instance_id (some worker_id)
      && sql_eq replica.source_id a.source_id
      && sql_eq replica.publication_id (some g.workflow_version)
      && str_eq replica.ui_graph_sha256 g.ui_graph_sha256
      && str_eq replica.api_graph_sha256 g.api_graph_sha256
      && sql_eq replica.manifest_sha256 (some g.contract_sha256)

  carries-eq :
      (a : WorkflowProfile)
      → any (carries worker_id g a) pool.profiles
        ≡ (str_eq a.id g.workflow_profile_id && any (same_revision a) pool.profiles)
  carries-eq a = elim (Bool-cases (str_eq a.id g.workflow_profile_id)) [
    | inl e ↦
        any-cong (carries worker_id g a) (same_revision a) pool.profiles (λ r m. rw e refl)
        ∙ rw e refl
    | inr e ↦
        any-cong (carries worker_id g a) (λ r. false) pool.profiles (λ r m. rw e refl)
        ∙ any-none pool.profiles
        ∙ rw e refl
  ]

  eligible-eq : eligible pool worker_id g ≡ (
      any (same_revision accepted) pool.profiles
      || str_eq worker_id pool.primary_id && (has_no_source accepted || lacks_publication accepted))
  unfolding eligible
  eligible-eq =
      rw
        (
          any-cong (λ a. any (carries worker_id g a) pool.profiles)
              (λ a. str_eq a.id g.workflow_profile_id && any (same_revision a) pool.profiles)
              pool.profiles (λ a m. carries-eq a),
          any-accepted (λ a. any (same_revision a) pool.profiles),
          any-accepted (λ a. has_no_source a || lacks_publication a),
        )
        refl

  abbrev no_source : Option String → Bool
  no_source o = elim o [ none ↦ true | some s ↦ false ]

  unpublished : accepted.source_id ≡ none → any (same_revision accepted) pool.profiles ≡ false
  unpublished e =
      any-cong (same_revision accepted) (λ r. false) pool.profiles
        (λ r m.
          let k : sql_eq r.source_id accepted.source_id ≡ false =
            ap (sql_eq r.source_id) e ∙ sql_eq-none r.source_id in
          rw k (ground arith))
      ∙ any-none pool.profiles

  published :
      accepted.publication_id ≡ some g.workflow_version
      → accepted.ui_graph_sha256 ≡ g.ui_graph_sha256
      → accepted.api_graph_sha256 ≡ g.api_graph_sha256
      → accepted.manifest_sha256 ≡ some g.contract_sha256
      → any (replicates worker_id accepted) pool.profiles
        ≡ any (same_revision accepted) pool.profiles
  published v u a c =
      any-cong (replicates worker_id accepted) (same_revision accepted) pool.profiles λ r m.
        let p = ap (sql_eq r.publication_id) v in
        let q = ap (str_eq r.ui_graph_sha256) u in
        let n = ap (str_eq r.api_graph_sha256) a in
        let k = ap (sql_eq r.manifest_sha256) c in rw (p, q, n, k) refl

  hosts_of : Bool → List String
  hosts_of legacy =
      if legacy then pool.primary_id ∷ [] else filter (is_carried pool g) pool.member_ids

  unpinned :
      is_member pool worker_id ≡ true
      → any (str_eq worker_id) (hosts_of (is_legacy pool g)) ≡ eligible pool worker_id g
  unfolding is_member hosts_of
  unpinned h = elim as_accepted.revision [
    | inl e ↦
        let s : has_no_source accepted ≡ true = ap no_source e in
        let l : is_legacy pool g ≡ true = legacy-eq ∙ s in
        rw (l, eligible-eq, unpublished e, s) (ground arith)
    | inr (source, e, v, u, a, c) ↦
        let s : has_no_source accepted ≡ false = ap no_source e in
        let p : lacks_publication accepted ≡ false = ap no_source v in
        let l : is_legacy pool g ≡ false = legacy-eq ∙ s in
        rw
          (
            l,
            any-filter worker_id (is_carried pool g) pool.member_ids,
            h,
            carried-eq,
            published v u a c,
            eligible-eq,
            s,
            p,
          )
          (ground arith)
  ]

  pinned :
      (i : Option String)
      → is_member pool worker_id ≡ true
      → any (str_eq worker_id) (elim i [ some i ↦ i ∷ [] | none ↦ hosts_of (is_legacy pool g) ])
        ≡ elim i [
          | none ↦ is_member pool worker_id && eligible pool worker_id g
          | some i ↦ str_eq i worker_id
        ]
  pinned none h = unpinned h ∙ rw h refl
  pinned (some i) h = ground (arith, str_eq_iff i worker_id, str_eq_iff worker_id i)

  -- The estimate and the dispatcher agree on where a queued image can run: a member of the pool is
  -- among the hosts of the estimate exactly if the dispatcher lets it claim the image. The profile of
  -- the image must be as it was at the acceptance, or of before publications.
  pub eligible_hosts-claimable :
      is_member pool worker_id ≡ true
      → any (str_eq worker_id) (eligible_hosts pool g) ≡ claimable pool worker_id g
  unfolding eligible_hosts claimable hosts_of
  eligible_hosts-claimable h = pinned g.comfyui_instance_id h
