-- ===== src/Scheduler/Yielding.antt =====
-- Background work yields to foreground work.
use comfyui_image_frontend.Prelude.{
  ℕ, ◌≡◌, subst, inl, inr, String, List, [], ◌∷◌, map, any, Option, some, Bool, true, false, ◌&&◌,
  ◌||◌, Bool-cases, All, arith,
}
use comfyui_image_frontend.Prelude.Members.{All-at}
use comfyui_image_frontend.Status.{queued, cancel_requested, status_eq, is_active}
use comfyui_image_frontend.Database.{Generation}
use comfyui_image_frontend.Scheduler.Activity.{
  is_background, is_foreground, DemoReelConfig, Reels, revoke, record_activity, preempt,
}
use comfyui_image_frontend.Scheduler.Pool.{Pool, claimable}
use comfyui_image_frontend.Scheduler.Claim.{Queue, image, Claim, make_way, claim_next}
use comfyui_image_frontend.Scheduler.Served.{Waits}
use comfyui_image_frontend.Scheduler.Claimed.{claim_next-IsServed}

-- A background generation that is still active is on its way out.
abbrev pub Yields : Generation → Type 0
Yields g = is_background g ≡ true → (g.status ≡ cancel_requested) × (g.pending_delete ≡ true)

revoke-Yields : (now : ℕ) (g : Generation) → Yields (revoke now g)
unfolding revoke is_active
revoke-Yields now g h = ground arith

revoke-foreground : (now : ℕ) (g : Generation) → is_foreground (revoke now g) ≡ is_foreground g
unfolding revoke is_active
revoke-foreground now g = ground arith

rows-Yield : (now : ℕ) (rows : List Generation) → All Yields (map (revoke now) rows)
rows-Yield now [] = tt
rows-Yield now (g ∷ rows) = (revoke-Yields now g, rows-Yield now rows)

none-Yield : (rows : List Generation) → any is_background rows ≡ false → All Yields rows
none-Yield [] e = tt
none-Yield (g ∷ rows) e =
    let (e', e'') = neither {a = is_background g} e in ((λ h. cc (h, e')), none-Yield rows e'')
  where
    neither : {a b : Bool} → a || b ≡ false → (a ≡ false) × (b ≡ false)
    neither {a} {b} e = ground arith

preempt-Yields :
    (now : ℕ) (reels : Reels) (rows : List Generation) {config : DemoReelConfig}
    → reels.config ≡ some config
    → any is_foreground rows ≡ true
    → All Yields (preempt now reels rows).1
unfolding preempt record_activity
preempt-Yields now reels rows configured busy = elim (Bool-cases (any is_background rows)) [
  | inl e ↦ rw (preempt, e, busy, configured) (rows-Yield now rows)
  | inr e ↦ rw (preempt, e) (none-Yield rows e)
]

-- While reels are configured and any user has an active generation, the preemption leaves every
-- reel's generation that is still active cancel-requested and to be deleted, and a worker that
-- claims an image then never claims a reel's.
pub foreground_first :
    (now : ℕ) (pool : Pool) (target : String) (label : Option String) (q : Queue)
    {config : DemoReelConfig}
    → q.reels.config ≡ some config
    → any is_foreground q.generations ≡ true
    → All Yields (make_way now q).generations
      × ((c : Claim) (g : Generation)
          → claim_next now pool target label q ≡ some c
          → c.job ≡ image g
          → is_background g ≡ false)
unfolding make_way Waits
foreground_first now pool target label q configured busy =
    let yields = preempt-Yields now q.reels q.generations configured busy in
    (
      yields,
      λ c g h e.
          let (m, w) =
            subst (Waits pool target (make_way now q)) e
              (claim_next-IsServed now pool target label q h).waiting in
          not_background g (All-at Yields g (preempt now q.reels q.generations).1 yields m) w,
    )
  where
    not_background :
        (g : Generation)
        → Yields g
        → status_eq g.status queued && claimable pool target g ≡ true
        → is_background g ≡ false
    not_background g y w = ground arith
