-- ===== src/Accounts/Throttled.antt =====
-- How many wrong passwords can be tried (`authenticate`, `_record_failed_attempt` of
-- backend/app/services/auth.py).
use comfyui_image_frontend.Prelude.{
  ℕ, suc, ◌+◌, ◌-◌, ◌≤◌, ◌<◌, ◌≡◌, refl, sym, ◌∙◌, subst, ap, ◌⊎◌, inl, inr, String, true, false,
  Option, none, some, List, [], ◌∷◌, ltb, leb, str_eq, str_eq_iff, Bool-cases, Option-cases, All,
  arith, if◌then◌else◌,
}
use comfyui_image_frontend.Text.{len}
use comfyui_image_frontend.Errors.{AppError, Result, raised, ok}
use comfyui_image_frontend.Accounts.{
  User, UserSession, weak_password, long_password, LoginThrottle, Accounts, Settings, find,
  validate_password, hash_password,
}
use comfyui_image_frontend.Accounts.Login.{
  Draw, throttle_key, has_key, is_blocked, current_window, count_attempt, record_failed_attempt,
  login_throttled, invalid_credentials, upgraded, admit, valid_user, authenticate,
}
use comfyui_image_frontend.Accounts.Revoked.{find-some}

pub record Attempt : Type 0 where
  pub now : ℕ
  pub password : String
  pub draw : Draw

-- A wrong password counts; a refused attempt does not; any other result ends the count.
abbrev pub tally : Result (User × UserSession) → ℕ → ℕ
tally (ok admitted) later = 0
tally (raised e) later =
    if str_eq e.code "login_throttled"
    then later
    else if str_eq e.code "invalid_credentials"
    then suc later
    else 0

-- How many of the attempts are told that the password is wrong, up to the first one that gets past
-- the check of the password.
unfoldable pub wrong_guesses : Settings → String → String → List Attempt → Accounts → ℕ
unfolding authenticate
wrong_guesses settings name ip [] accounts = 0
wrong_guesses settings name ip (a ∷ rest) accounts =
    let (after, r) = authenticate settings a.now a.draw name a.password ip accounts in
    tally r (wrong_guesses settings name ip rest after)

-- Every attempt is made within the window and before a block that starts at `start` would end.
abbrev pub Within : Settings → ℕ → Attempt → Type 0
Within settings start a =
    (start ≤ a.now)
    × (a.now ≤ start + settings.login_window_seconds)
    × (a.now < start + settings.login_block_seconds)

upgraded-cases :
    (settings : Settings) (salt password : String) (u : User)
    → ((v : User) × (upgraded settings salt password u ≡ ok v))
      ⊎ ((e : AppError) × (upgraded settings salt password u ≡ raised e)
          × (str_eq e.code "login_throttled" ≡ false)
          × (str_eq e.code "invalid_credentials" ≡ false))
unfolding hash_password validate_password
upgraded-cases settings salt password u =
    elim (Bool-cases (settings.password_needs_rehash u.password_hash)) [
      | inr e ↦ inl (u, rw e refl)
      | inl e ↦ elim (Bool-cases (ltb (len password) 8)) [
        | inl short ↦
            inr (weak_password, rw (e, hash_password, validate_password, short) refl, refl, refl)
        | inr q ↦ elim (Bool-cases (ltb 1024 (len password))) [
          | inl long ↦
              inr
                (long_password, rw (e, hash_password, validate_password, q, long) refl, refl, refl)
          | inr q' ↦ inl (
            record u { password_hash = settings.hash_with salt password },
            rw (e, hash_password, validate_password, q, q') refl,
          )
        ]
      ]
    ]

module _ (settings : Settings) (name ip : String) (start : ℕ) where
  key : String
  key = throttle_key settings name ip

  throttle : Accounts → Option LoginThrottle
  throttle accounts = find (has_key key) accounts.throttles

  -- The throttle after `k` wrong passwords.
  Spent : ℕ → Option LoginThrottle → Type 0
  Spent k none = k ≡ 0
  Spent k (some t) =
      (t.attempts ≡ k)
      × (start ≤ t.window_started_at)
      × (leb settings.login_max_attempts k ≡ true
          → (b : ℕ) × (t.blocked_until ≡ some b) × (start + settings.login_block_seconds ≤ b))

  blocked_run :
      (a : Attempt) (accounts : Accounts)
      → is_blocked a.now (throttle accounts) ≡ true
      → authenticate settings a.now a.draw name a.password ip accounts
        ≡ (accounts, raised login_throttled)
  unfolding authenticate throttle key
  blocked_run a accounts e = rw (authenticate, e) refl

  wrong_run :
      (a : Attempt) (accounts : Accounts)
      → is_blocked a.now (throttle accounts) ≡ false
      → valid_user settings name a.password accounts.users ≡ none
      → authenticate settings a.now a.draw name a.password ip accounts ≡ (
        record_failed_attempt settings a.now key (throttle accounts) accounts,
        raised invalid_credentials,
      )
  unfolding authenticate throttle key
  wrong_run a accounts e e' = rw (authenticate, e, e') refl

  past_run :
      (a : Attempt) (accounts : Accounts) {u : User}
      → is_blocked a.now (throttle accounts) ≡ false
      → valid_user settings name a.password accounts.users ≡ some u
      → (after : Accounts) × (r : Result (User × UserSession)) × (authenticate settings a.now a.draw
            name a.password ip accounts
          ≡ (after, r))
        × ((later : ℕ) → tally r later ≡ 0)
  unfolding authenticate throttle key
  past_run a accounts {u} e e' = elim (upgraded-cases settings a.draw.salt a.password u) [
    | inl (v, q) ↦
        let (after, r) = admit settings a.now a.draw key v accounts in
        (after, r, rw (authenticate, e, e', q) refl, λ later. refl)
    | inr (x, q, other, wrong) ↦
        (accounts, raised x, rw (authenticate, e, e', q) refl, λ later. rw (other, wrong) refl)
  ]

  key-window :
      (now : ℕ) (accounts : Accounts)
      → (current_window settings now key (throttle accounts)).key_hash ≡ key
  unfolding throttle
  key-window now accounts = elim (Option-cases (throttle accounts)) [
    | inl e ↦ rw e refl
    | inr (t, e) ↦
        rw e
          (same t ((str_eq_iff t.key_hash key).0 (find-some (has_key key) accounts.throttles e).1))
  ]
    where
      same :
          (t : LoginThrottle)
          → t.key_hash ≡ key
          → (current_window settings now key (some t)).key_hash ≡ key
      same t e = ground (arith, e)

  found :
      (now : ℕ) (accounts : Accounts)
      → throttle (record_failed_attempt settings now key (throttle accounts) accounts)
        ≡ some (count_attempt settings now (current_window settings now key (throttle accounts)))
  unfolding throttle record_failed_attempt find
  found now accounts = rw (throttle, find, (str_eq_iff _ key).1 (key-window now accounts)) refl

  Spent-suc :
      (now k : ℕ) (th : Option LoginThrottle)
      → start ≤ now
      → now ≤ start + settings.login_window_seconds
      → Spent k th
      → Spent (suc k) (some (count_attempt settings now (current_window settings now key th)))
  unfolding Spent
  Spent-suc now k none l w s = (
    omega (arith, s),
    l,
    λ h. (
      now + settings.login_block_seconds,
      rw (ap (leb settings.login_max_attempts) (ap suc (sym s)) ∙ h) refl,
      omega arith,
    ),
  )
  Spent-suc now k (some t) l w (attempts, opened, block) = rw (inside t.window_started_at opened) (
    omega (arith, attempts),
    opened,
    λ h. (
      now + settings.login_block_seconds,
      rw (ap (leb settings.login_max_attempts) (next t.attempts attempts) ∙ h) refl,
      omega arith,
    ),
  )
    where
      inside : (o : ℕ) → start ≤ o → ltb settings.login_window_seconds (now - o) ≡ false
      inside o q = ground arith

      next : (n : ℕ) → n ≡ k → n + 1 ≡ suc k
      next n e = omega arith

  -- Once the attempts are used up, the throttle blocks.
  used_up :
      (now k : ℕ) (th : Option LoginThrottle)
      → 1 ≤ settings.login_max_attempts
      → now < start + settings.login_block_seconds
      → Spent k th
      → is_blocked now th ≡ false
      → k < settings.login_max_attempts
  unfolding Spent
  used_up now k none pos l s e = omega (arith, s)
  used_up now k (some t) pos l (attempts, opened, block) e =
      elim (Bool-cases (leb settings.login_max_attempts k)) [
        | inr below ↦ ground (arith, below)
        | inl full ↦ let (b, q, r) = block full in absurd (late b r (rw q at e))
      ]
    where
      late : (b : ℕ) → start + settings.login_block_seconds ≤ b → ltb now b ≡ false → ⊥
      late b r h = ground arith

  bounded :
      (attempts : List Attempt) (k : ℕ) (accounts : Accounts)
      → 1 ≤ settings.login_max_attempts
      → All (Within settings start) attempts
      → Spent k (throttle accounts)
      → k ≤ settings.login_max_attempts
      → k + wrong_guesses settings name ip attempts accounts ≤ settings.login_max_attempts
  unfolding wrong_guesses
  bounded [] k accounts pos w s l = omega (arith, l)
  bounded (a ∷ rest) k accounts pos ((early, inside, before), w) s l =
      elim (Bool-cases (is_blocked a.now (throttle accounts))) [
        | inl e ↦
            omega (arith, counted (blocked_run a accounts e), bounded rest k accounts pos w s l)
        | inr e ↦ elim (Option-cases (valid_user settings name a.password accounts.users)) [
          | inl e' ↦
              let next = record_failed_attempt settings a.now key (throttle accounts) accounts in
              let s' =
                subst (Spent (suc k)) (sym (found a.now accounts))
                  (Spent-suc a.now k (throttle accounts) early inside s) in
              let l' : k < settings.login_max_attempts =
                used_up a.now k (throttle accounts) pos before s e in
              omega
                (arith, counted (wrong_run a accounts e e'), bounded rest (suc k) next pos w s' l')
          | inr (u, e') ↦
              let (after, r, q, z) = past_run a accounts e e' in
              omega (arith, l, counted q, z (wrong_guesses settings name ip rest after))
        ]
      ]
    where
      counted :
          {after : Accounts} {r : Result (User × UserSession)}
          → authenticate settings a.now a.draw name a.password ip accounts ≡ (after, r)
          → wrong_guesses settings name ip (a ∷ rest) accounts
            ≡ tally r (wrong_guesses settings name ip rest after)
      counted q =
          ap
            (λ (x : Accounts × Result (User × UserSession)).
              tally x.1 (wrong_guesses settings name ip rest x.0))
            q

-- Whatever passwords are tried for a name from an address whose throttle is clear: within the
-- window, and as long as a block from the start would last, at most the configured number of
-- attempts are told that the password is wrong, up to the first that gets past the check.
pub wrong_guesses-le :
    (settings : Settings) (name ip : String) (start : ℕ) (attempts : List Attempt)
    (accounts : Accounts)
    → 1 ≤ settings.login_max_attempts
    → find (has_key (throttle_key settings name ip)) accounts.throttles ≡ none
    → All (Within settings start) attempts
    → wrong_guesses settings name ip attempts accounts ≤ settings.login_max_attempts
unfolding Spent throttle key
wrong_guesses-le settings name ip start attempts accounts pos clear w = omega (
  arith,
  bounded settings name ip start attempts 0 accounts pos w
      (subst (Spent settings name ip start 0) (sym clear) refl) (omega arith),
)
