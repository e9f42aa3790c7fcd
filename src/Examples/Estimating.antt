-- ===== src/Examples/Estimating.antt =====
-- The estimate of a queue.
use mathlib.Core.List.{Memᴰ}
use mathlib.Core.List.Memᴰ.{not-nil}
use comfyui_image_frontend.Prelude.{
  ℕ, ◌+◌, ◌≡◌, refl, sym, ap, ◌∙◌, inr, String, some, Option, List, [], ◌∷◌, any, filter, length,
  str_eq, str_eq_iff,
}
use comfyui_image_frontend.Database.{Generation}
use comfyui_image_frontend.Scheduler.Pool.{WorkflowProfile, is_member, claimable}
use comfyui_image_frontend.Scheduler.Claim.{Queue}
use comfyui_image_frontend.Estimates.{known, eligible_hosts, is_pending, simulate_pending}
use comfyui_image_frontend.Estimates.Hosts.{IsAsAccepted, eligible_hosts-claimable}
use comfyui_image_frontend.Estimates.Placed.{
  DistinctJobs, count_owned, Covers, simulate_pending-Covers,
}
use comfyui_image_frontend.Examples.Rows.{ann_row, bob_row, pool, profile, queue}

ann-IsAsAccepted : IsAsAccepted pool ann_row profile
ann-IsAsAccepted = record {
  found = Memᴰ.head refl;
  named = refl;
  only = only;
  revision = inr ("source", refl, refl, refl, refl, refl);
}
  where
    only : (p : WorkflowProfile) → Memᴰ p pool.profiles → p.id ≡ "profile" → p ≡ profile
    only p (Memᴰ.head q) e = q
    only p (Memᴰ.tail n) e = absurd (not-nil n)

eligible_hosts-claimable_example :
    any (str_eq "gpu0") (eligible_hosts pool ann_row) ≡ claimable pool "gpu0" ann_row
unfolding is_member
eligible_hosts-claimable_example =
    eligible_hosts-claimable pool ann_row profile ann-IsAsAccepted "gpu0" refl

abbrev images_only : Queue
images_only = record queue { prompt_runs = [] }

abbrev jobs : List Generation
jobs = ann_row ∷ bob_row ∷ []

ids_apart : ¬ (ann_row.id ≡ bob_row.id)
ids_apart e = cc ((str_eq_iff ann_row.id bob_row.id).1 e)

jobs-Distinct : DistinctJobs jobs
jobs-Distinct a b (Memᴰ.head p) (Memᴰ.head q) e = p ∙ sym q
jobs-Distinct a b (Memᴰ.head p) (Memᴰ.tail (Memᴰ.head q)) e =
    absurd (ids_apart (ap (λ (g : Generation). g.id) (sym p) ∙ e ∙ ap (λ (g : Generation). g.id) q))
jobs-Distinct a b (Memᴰ.tail (Memᴰ.head p)) (Memᴰ.head q) e =
    absurd
      (ids_apart (ap (λ (g : Generation). g.id) (sym q) ∙ sym e ∙ ap (λ (g : Generation). g.id) p))
jobs-Distinct a b (Memᴰ.tail (Memᴰ.head p)) (Memᴰ.tail (Memᴰ.head q)) e = p ∙ sym q
jobs-Distinct a b (Memᴰ.head p) (Memᴰ.tail (Memᴰ.tail n)) e = absurd (not-nil n)
jobs-Distinct a b (Memᴰ.tail (Memᴰ.head p)) (Memᴰ.tail (Memᴰ.tail n)) e = absurd (not-nil n)
jobs-Distinct a b (Memᴰ.tail (Memᴰ.tail m)) n e = absurd (not-nil m)

abbrev five : Generation → String → Option ℕ
five g i = some 5

simulate_pending-Covers_example :
    Covers five pool "ann"
      (("gpu0", 0) ∷ [])
      (filter (is_pending (("gpu0", 0) ∷ [])) jobs)
      (length {A = ℕ × ℕ} [] + count_owned "ann" (filter (is_pending (("gpu0", 0) ∷ [])) jobs))
      (simulate_pending five pool "ann" 3 (some "ann") (("gpu0", 0) ∷ []) [] jobs)
simulate_pending-Covers_example =
    simulate_pending-Covers five pool "ann" (some "ann") (("gpu0", 0) ∷ []) [] jobs jobs-Distinct

-- Bob's image goes first, since Ann was served last.
simulated :
    simulate_pending five pool "ann" 3 (some "ann") (("gpu0", 0) ∷ []) [] jobs
    ≡ some (known ((10, 5) ∷ []))
unfolding simulate_pending
simulated = refl
