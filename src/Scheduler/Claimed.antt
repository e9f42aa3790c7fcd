-- ===== src/Scheduler/Claimed.antt =====
-- What a claim takes, and when there is none.
use mathlib.Core.List.{Memᴰ}
use mathlib.Core.List.Memᴰ.{not-nil, append_left, append_right, append_cases}
use comfyui_image_frontend.Prelude.{
  ℕ, ◌≡◌, refl, sym, ◌∙◌, subst, ap, ◌↔◌, ◌⊎◌, inl, inr, String, List, [], ◌∷◌, map, Option, none,
  some, false, Option-cases, some_inj, ◌<◌, arith, length,
}
use comfyui_image_frontend.Prelude.Members.{Memᴰ-of_filter, Memᴰ-filter, Memᴰ-map, Memᴰ-of_map}
use comfyui_image_frontend.Database.{Generation}
use comfyui_image_frontend.Scheduler.Pool.{Pool}
use comfyui_image_frontend.Scheduler.Turn.{First, owner_order, next_owner}
use comfyui_image_frontend.Scheduler.Owners.{owners_of, Memᴰ-owner_order, Memᴰ-of_owner_order}
use comfyui_image_frontend.Scheduler.Place.{lt-get, get-member, first_turn}
use comfyui_image_frontend.Scheduler.Served.{
  owner_of, job_rank, Waits, Chosen, images, texts, image-in, text-in, next_job-Chosen,
}
use comfyui_image_frontend.Scheduler.Claim.{
  PromptRun, Queue, waits, text_waits, images_for, lines, rank_lt, Job, image, text, next_job,
  take_job, Claim, take_turn, make_way, claim_next,
}

pub record IsServed (pool : Pool) (target : String) (q : Queue) (c : Claim) : Type 0 where
  pub waiting : Waits pool target q c.job
  pub owned : owner_of c.job ≡ c.owner
  pub first :
      (j : Job)
      → Waits pool target q j
      → owner_of j ≡ c.owner
      → rank_lt (job_rank j) (job_rank c.job) ≡ false
  pub in_turn : next_owner q.last_user_id (owner_order (lines pool target q)) ≡ some c.owner
  pub cursor : c.queue.last_user_id ≡ some c.owner

-- The owners in line are those of the waiting jobs.
owner-in_line :
    (pool : Pool) (target : String) (q : Queue) (j : Job)
    → Waits pool target q j
    → Memᴰ (owner_of j) (owners_of (lines pool target q))
unfolding Waits lines
owner-in_line pool target q (image g) (n, w) =
    Memᴰ-map (λ (j : First). j.0) (g.owner_id, g.queue_seq) (lines pool target q)
      (append_left _ (
        Memᴰ-map (λ (g : Generation). (g.owner_id, g.queue_seq)) g _
          (Memᴰ-filter (waits pool target) g q.generations n w)))
owner-in_line pool target q (text r) (n, w) =
    Memᴰ-map (λ (j : First). j.0) (r.owner_id, r.queue_seq) (lines pool target q)
      (append_right _ (
        Memᴰ-map (λ (r : PromptRun). (r.owner_id, r.queue_seq)) r _
          (Memᴰ-filter (text_waits target) r q.prompt_runs n w)))

in_line-owner :
    (pool : Pool) (target : String) (q : Queue) (o : String)
    → Memᴰ o (owners_of (lines pool target q))
    → (j : Job) × Waits pool target q j × (owner_of j ≡ o)
unfolding Waits lines
in_line-owner pool target q o m =
    let (l, n, e) = Memᴰ-of_map (λ (j : First). j.0) o (lines pool target q) m in
    elim (append_cases
      (map (λ (g : Generation). (g.owner_id, g.queue_seq)) (images_for pool target q)) n) [
        | inl k ↦
            let (g, k', e') = Memᴰ-of_map (λ (g : Generation). (g.owner_id, g.queue_seq)) l _ k in
            (
              image g,
              Memᴰ-of_filter (waits pool target) g q.generations k',
              sym (e ∙ ap (λ (j : First). j.0) e'),
            )
        | inr k ↦
            let (r, k', e') = Memᴰ-of_map (λ (r : PromptRun). (r.owner_id, r.queue_seq)) l _ k in
            (
              text r,
              Memᴰ-of_filter (text_waits target) r q.prompt_runs k',
              sym (e ∙ ap (λ (j : First). j.0) e'),
            )
      ]

take_job-cursor :
    (now : ℕ) (target : String) (label : Option String) (owner : String) (q : Queue) (j : Job)
    → (take_job now target label owner q j).0.last_user_id ≡ some owner
unfolding take_job
take_job-cursor now target label owner q (image g) = refl
take_job-cursor now target label owner q (text r) = refl

module _ (now : ℕ) (pool : Pool) (target : String) (label : Option String) (q : Queue) where
  abbrev order : List String
  order = owner_order (lines pool target q)

  nothing_chosen : (o : String) → Memᴰ o order → next_job pool target q o ≡ none → ⊥
  unfolding Chosen
  nothing_chosen o m e =
      let (j, w, p) =
        in_line-owner pool target q o (Memᴰ-of_owner_order o (lines pool target q) m) in
      let (no_images, no_texts) =
        subst (Chosen pool target q o) e (next_job-Chosen pool target q o) in
      stuck j w p no_images no_texts
    where
      stuck :
          (j : Job)
          → Waits pool target q j
          → owner_of j ≡ o
          → images pool target q o ≡ []
          → texts pool target q o ≡ []
          → ⊥
      stuck (image g) w p e e' = not-nil (subst (Memᴰ g) e (image-in pool target q o g w p))
      stuck (text r) w p e e' = not-nil (subst (Memᴰ r) e' (text-in pool target q o r w p))

  claimed : (o : String) (j : Job) → Claim
  claimed o j = record {
    owner = o;
    job = j;
    queue = (take_job now target label o q j).0;
    events = (take_job now target label o q j).1;
  }

  claimed-IsServed :
      (o : String) (j : Job)
      → next_owner q.last_user_id order ≡ some o
      → next_job pool target q o ≡ some j
      → IsServed pool target q (claimed o j)
  unfolding claimed Chosen
  claimed-IsServed o j e e' =
      let (w, p, f) = subst (Chosen pool target q o) e' (next_job-Chosen pool target q o) in
      record {
        waiting = w;
        owned = p;
        first = f;
        in_turn = e;
        cursor = take_job-cursor now target label o q j;
      }

  idle_claim : lines pool target q ≡ [] → take_turn now pool target label q ≡ none
  unfolding take_turn next_owner owner_order
  idle_claim e =
      rw (take_turn, ap (λ l. next_owner q.last_user_id (owner_order l)) e ∙ nobody q.last_user_id)
        refl
    where
      nobody : (last : Option String) → next_owner last (owner_order []) ≡ none
      nobody none = refl
      nobody (some s) = refl

  busy_claim :
      (o : String) (j : Job)
      → next_owner q.last_user_id order ≡ some o
      → next_job pool target q o ≡ some j
      → take_turn now pool target label q ≡ some (claimed o j)
  unfolding take_turn claimed
  busy_claim o j e e' = rw (take_turn, e, e') refl

  some_turn :
      {k : String}
      → Memᴰ k (owners_of (lines pool target q))
      → (o : String) × (j : Job) × (next_owner q.last_user_id order ≡ some o)
        × (next_job pool target q o ≡ some j)
  some_turn {k} m =
      let in_order = Memᴰ-owner_order k (lines pool target q) m in
      let (p, l, e) = first_turn order q.last_user_id (member-pos in_order) in
      let (o, e') = lt-get order p l in
      elim (Option-cases (next_job pool target q o)) [
        | inl none_chosen ↦ absurd (nothing_chosen o (get-member order p e') none_chosen)
        | inr (j, e'') ↦ (o, j, e ∙ e', e'')
      ]
    where
      member-pos : {k : String} {xs : List String} → Memᴰ k xs → 0 < length xs
      member-pos {xs = []} m = elim m [ ]
      member-pos {xs = x ∷ xs} m = omega arith

  served_or_idle :
      (ls : List First)
      → lines pool target q ≡ ls
      → (take_turn now pool target label q ≡ none)
        ⊎ ((o : String) × (j : Job) × (next_owner q.last_user_id order ≡ some o)
            × (next_job pool target q o ≡ some j))
  served_or_idle [] e = inl (idle_claim e)
  served_or_idle (l ∷ ls) e =
      inr (some_turn (subst (λ xs. Memᴰ l.0 (owners_of xs)) (sym e) (Memᴰ.head refl)))

pub take_turn-IsServed :
    (now : ℕ) (pool : Pool) (target : String) (label : Option String) (q : Queue) {c : Claim}
    → take_turn now pool target label q ≡ some c
    → IsServed pool target q c
take_turn-IsServed now pool target label q {c} h =
    elim (served_or_idle now pool target label q (lines pool target q) refl) [
      | inl idle ↦ cc
      | inr (o, j, e, e') ↦
          subst (IsServed pool target q)
            (some_inj (sym (busy_claim now pool target label q o j e e') ∙ h))
            (claimed-IsServed now pool target label q o j e e')
    ]

-- What a claim takes waits in the tables as the preemption of the reels leaves them, can be taken by
-- the worker and belongs to the owner whose turn it is; no other job of that owner that the worker
-- could take comes before it; and the cursor then stands at that owner.
pub claim_next-IsServed :
    (now : ℕ) (pool : Pool) (target : String) (label : Option String) (q : Queue) {c : Claim}
    → claim_next now pool target label q ≡ some c
    → IsServed pool target (make_way now q) c
unfolding claim_next
claim_next-IsServed now pool target label q h =
    take_turn-IsServed now pool target label (make_way now q) h

-- A worker claims nothing exactly when, once the reels are preempted, no job waits that it can take.
pub claim_next-idle :
    (now : ℕ) (pool : Pool) (target : String) (label : Option String) (q : Queue)
    → (claim_next now pool target label q ≡ none)
      ↔ ((j : Job) → ¬ Waits pool target (make_way now q) j)
unfolding claimed claim_next
claim_next-idle now pool target label q = (none_waits, claims_none)
  where
    q' : Queue
    q' = make_way now q

    none_waits : take_turn now pool target label q' ≡ none → (j : Job) → ¬ Waits pool target q' j
    none_waits h j w =
        let (o, k, e, e') = some_turn now pool target label q' (owner-in_line pool target q' j w) in
        cc (h, busy_claim now pool target label q' o k e e')

    claims_none : ((j : Job) → ¬ Waits pool target q' j) → take_turn now pool target label q' ≡ none
    claims_none f = elim (served_or_idle now pool target label q' (lines pool target q') refl) [
      | inl idle ↦ idle
      | inr (o, j, e, e') ↦
          absurd (f j (claimed-IsServed now pool target label q' o j e e').waiting)
    ]
