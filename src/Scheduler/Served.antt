-- ===== src/Scheduler/Served.antt =====
-- The job that an owner's turn takes.
use mathlib.Core.List.{Memᴰ}
use mathlib.Core.List.Memᴰ.{not-nil}
use comfyui_image_frontend.Prelude.{
  ◌≡◌, subst, inl, inr, String, List, [], filter, Option, none, some, Bool, true, false, ◌&&◌,
  Bool-cases, str_eq, str_eq_iff, arith,
}
use comfyui_image_frontend.Prelude.Members.{Memᴰ-of_filter, Memᴰ-filter, All-at}
use comfyui_image_frontend.Database.{Generation}
use comfyui_image_frontend.Scheduler.Pool.{Pool, claimable}
use comfyui_image_frontend.Scheduler.Line.{rank_lt_asym, rank_le_trans, IsFirst, first_by-IsFirst}
use comfyui_image_frontend.Scheduler.Claim.{
  PromptRun, Queue, waits, text_waits, Rank, rank_lt, image_rank, text_rank, first_by, Job, image,
  text, choose, next_job,
}

abbrev pub owner_of : Job → String
owner_of (image g) = g.owner_id
owner_of (text r) = r.owner_id

abbrev pub job_rank : Job → Rank
job_rank (image g) = image_rank g
job_rank (text r) = text_rank r

-- The job waits in the tables, and this worker can take it.
unfoldable pub Waits : Pool → String → Queue → Job → Type 0
unfolding claimable
Waits pool target q (image g) = Memᴰ g q.generations × (waits pool target g ≡ true)
Waits pool target q (text r) = Memᴰ r q.prompt_runs × (text_waits target r ≡ true)

module _ (pool : Pool) (target : String) (q : Queue) (owner : String) where
  unfoldable pub images : List Generation
  images = filter (λ g. str_eq g.owner_id owner && waits pool target g) q.generations

  unfoldable pub texts : List PromptRun
  texts = filter (λ r. str_eq r.owner_id owner && text_waits target r) q.prompt_runs

  both : {a b : Bool} → a && b ≡ true → (a ≡ true) × (b ≡ true)
  both {a} {b} e = ground arith

  image-Waits :
      (g : Generation) → Memᴰ g images → Waits pool target q (image g) × (g.owner_id ≡ owner)
  unfolding images Waits
  image-Waits g m =
      let (n, e) = Memᴰ-of_filter _ g q.generations m in
      let (o, w) = both e in ((n, w), (str_eq_iff g.owner_id owner).0 o)

  text-Waits : (r : PromptRun) → Memᴰ r texts → Waits pool target q (text r) × (r.owner_id ≡ owner)
  unfolding texts Waits
  text-Waits r m =
      let (n, e) = Memᴰ-of_filter _ r q.prompt_runs m in
      let (o, w) = both e in ((n, w), (str_eq_iff r.owner_id owner).0 o)

  pub image-in :
      (g : Generation) → Waits pool target q (image g) → g.owner_id ≡ owner → Memᴰ g images
  unfolding images Waits
  image-in g (n, w) o = Memᴰ-filter _ g q.generations n (rw ((str_eq_iff g.owner_id owner).1 o) w)

  pub text-in : (r : PromptRun) → Waits pool target q (text r) → r.owner_id ≡ owner → Memᴰ r texts
  unfolding texts Waits
  text-in r (n, w) o = Memᴰ-filter _ r q.prompt_runs n (rw ((str_eq_iff r.owner_id owner).1 o) w)

  -- The first of this owner's line.
  unfoldable pub Chosen : Option Job → Type 0
  Chosen none = (images ≡ []) × (texts ≡ [])
  Chosen (some j) =
      Waits pool target q j
      × (owner_of j ≡ owner)
      × ((k : Job)
          → Waits pool target q k
          → owner_of k ≡ owner
          → rank_lt (job_rank k) (job_rank j) ≡ false)

  leading :
      (j : Job)
      → Waits pool target q j × (owner_of j ≡ owner)
      → ((g : Generation) → Memᴰ g images → rank_lt (image_rank g) (job_rank j) ≡ false)
      → ((r : PromptRun) → Memᴰ r texts → rank_lt (text_rank r) (job_rank j) ≡ false)
      → Chosen (some j)
  unfolding Chosen
  leading j (w, o) over_images over_texts = (w, o, over)
    where
      over :
          (k : Job)
          → Waits pool target q k
          → owner_of k ≡ owner
          → rank_lt (job_rank k) (job_rank j) ≡ false
      over (image g) w o = over_images g (image-in g w o)
      over (text r) w o = over_texts r (text-in r w o)

  chosen :
      (a : Option Generation) (b : Option PromptRun)
      → IsFirst image_rank images a
      → IsFirst text_rank texts b
      → Chosen (choose a b)
  unfolding Chosen
  chosen none none p r = (p, r)
  chosen (some g) none (m, f) r =
      leading (image g) (image-Waits g m) (λ h n. All-at _ h images f n)
        (λ h n. absurd (not-nil (subst (Memᴰ h) r n)))
  chosen none (some t) p (m, f) =
      leading (text t) (text-Waits t m) (λ h n. absurd (not-nil (subst (Memᴰ h) p n)))
        (λ h n. All-at _ h texts f n)
  chosen (some g) (some t) (m, f) (m', f') =
      elim (Bool-cases (rank_lt (text_rank t) (image_rank g))) [
        | inl e ↦ rw e (
            leading (text t) (text-Waits t m')
              (λ h n.
                rank_le_trans (text_rank t) (image_rank g) (image_rank h)
                  (rank_lt_asym (text_rank t) (image_rank g) e) (All-at _ h images f n))
              (λ h n. All-at _ h texts f' n))
        | inr e ↦ rw e (
            leading (image g) (image-Waits g m) (λ h n. All-at _ h images f n)
              (λ h n.
                rank_le_trans (image_rank g) (text_rank t) (text_rank h) e (All-at _ h texts f' n)))
      ]

  pub next_job-Chosen : Chosen (next_job pool target q owner)
  unfolding next_job images texts
  next_job-Chosen =
      chosen (first_by image_rank images) (first_by text_rank texts)
        (first_by-IsFirst image_rank images) (first_by-IsFirst text_rank texts)
