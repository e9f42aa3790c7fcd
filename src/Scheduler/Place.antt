-- ===== src/Scheduler/Place.antt =====
-- Whose turn it is: some owner in line.
use native.Mathlib.Nat.{mod-lt}
use mathlib.Core.List.{Memᴰ}
use comfyui_image_frontend.Prelude.{
  ℕ, zero, suc, ◌+◌, ◌<◌, ◌%◌, ◌≡◌, refl, sym, inl, inr, String, List, [], ◌∷◌, Option, none, some,
  Option-cases, length, get_elem?, index?, arith,
}
use comfyui_image_frontend.Scheduler.Turn.{next_owner}

pub lt-get : (xs : List String) (i : ℕ) → i < length xs → (o : String) × (get_elem? xs i ≡ some o)
lt-get [] i h = absurd (omega arith)
lt-get (x ∷ xs) zero h = (x, refl)
lt-get (x ∷ xs) (suc i) h = lt-get xs i (omega arith)

pub get-member : {o : String} (xs : List String) (i : ℕ) → get_elem? xs i ≡ some o → Memᴰ o xs
get-member [] i e = cc
get-member (x ∷ xs) zero e = Memᴰ.head (sym (cc e))
get-member (x ∷ xs) (suc i) e = Memᴰ.tail (get-member xs i e)

module _ (owners : List String) where
  -- Where the first turn goes.
  pub first_turn :
      (last : Option String)
      → zero < length owners
      → (p : ℕ) × (p < length owners) × (next_owner last owners ≡ get_elem? owners p)
  unfolding next_owner
  first_turn none h = (0, h, refl)
  first_turn (some s) h = elim (Option-cases (index? s owners)) [
    | inl e ↦ (0, h, rw (next_owner, e) refl)
    | inr (i, e) ↦ ((i + 1) % length owners, mod-lt (i + 1) h, rw (next_owner, e) refl)
  ]
