-- ===== src/Accounts/Login.antt =====
-- The login with its throttle (`authenticate` of backend/app/services/auth.py).
use comfyui_image_frontend.Prelude.{
  ℕ, ◌+◌, ◌-◌, String, Bool, true, false, not, ◌&&◌, Option, none, some, List, [], ◌∷◌, ltb, leb,
  str_eq, concat, if◌then◌else◌,
}
use comfyui_image_frontend.Errors.{Result, raised, ok, app_error, AppError}
use comfyui_image_frontend.Accounts.{
  User, UserSession, LoginThrottle, Accounts, Settings, find, delete_where, active, deleting,
  write_user, hash_password,
}

abbrev pub is_live : User → Bool
is_live u = not u.is_system && elim u.state [ active ↦ true | deleting ↦ false ]

abbrev pub throttle_key : Settings → String → String → String
throttle_key settings normalized client_ip =
    settings.keyed_hash (concat (normalized ∷ "|" ∷ client_ip ∷ []))

abbrev pub has_key : String → LoginThrottle → Bool
has_key key t = str_eq t.key_hash key

abbrev pub is_blocked : ℕ → Option LoginThrottle → Bool
is_blocked now none = false
is_blocked now (some t) = elim t.blocked_until [ none ↦ false | some until ↦ ltb now until ]

abbrev pub fresh : String → ℕ → LoginThrottle
fresh key now = record {
  key_hash = key;
  attempts = 0;
  window_started_at = now;
  blocked_until = none;
}

abbrev pub current_window : Settings → ℕ → String → Option LoginThrottle → LoginThrottle
current_window settings now key none = fresh key now
current_window settings now key (some t) =
    if ltb settings.login_window_seconds (now - t.window_started_at) then fresh key now else t

abbrev pub count_attempt : Settings → ℕ → LoginThrottle → LoginThrottle
count_attempt settings now t = record t {
  attempts = t.attempts + 1;
  blocked_until =
      if leb settings.login_max_attempts (t.attempts + 1)
      then some (now + settings.login_block_seconds)
      else t.blocked_until;
}

-- _record_failed_attempt
unfoldable pub record_failed_attempt :
    Settings → ℕ → String → Option LoginThrottle → Accounts → Accounts
record_failed_attempt settings now key throttle accounts = record accounts {
  throttles =
      count_attempt settings now (current_window settings now key throttle)
      ∷ delete_where (has_key key) accounts.throttles;
}

abbrev pub login_throttled : AppError
login_throttled = app_error "login_throttled" "Too many login attempts. Try again later." 429

abbrev pub invalid_credentials : AppError
invalid_credentials = app_error "invalid_credentials" "Username or password is incorrect." 401

-- What is drawn at random for a login.
pub record Draw : Type 0 where
  pub raw_token : String
  pub csrf_token : String
  pub salt : String

abbrev pub upgraded : Settings → String → String → User → Result User
upgraded settings salt password u =
    if settings.password_needs_rehash u.password_hash
    then elim (hash_password settings salt password) [
      | raised e ↦ raised e
      | ok h ↦ ok (record u { password_hash = h })
    ]
    else ok u

abbrev pub admit :
    Settings → ℕ → Draw → String → User → Accounts → Accounts × Result (User × UserSession)
admit settings now draw key u accounts =
    let stored : UserSession = record {
      id_hash = settings.keyed_hash draw.raw_token;
      user_id = u.id;
      csrf_token = draw.csrf_token;
      session_epoch = u.session_epoch;
      expires_at = now + settings.session_ttl;
      revoked_at = none;
    } in
    (
      record accounts {
        users = write_user u accounts.users;
        sessions = stored ∷ accounts.sessions;
        throttles = delete_where (has_key key) accounts.throttles;
      },
      ok (u, stored),
    )

-- The user of this name, if the password is theirs and the account is live.
unfoldable pub valid_user : Settings → String → String → List User → Option User
unfolding find
valid_user settings normalized password users =
    elim (find (λ u. str_eq u.username_normalized normalized) users) [
      | none ↦ none
      | some u ↦
          if is_live u && settings.verify_password u.password_hash password then some u else none
    ]

-- authenticate; `normalized` is the normalized name, or a folded prefix of what is no valid name.
unfoldable pub authenticate :
    Settings
    → ℕ
    → Draw
    → String
    → String
    → String
    → Accounts
    → Accounts × Result (User × UserSession)
unfolding find valid_user record_failed_attempt hash_password
authenticate settings now draw normalized password client_ip accounts =
    let key = throttle_key settings normalized client_ip in
    let throttle = find (has_key key) accounts.throttles in
    if is_blocked now throttle
    then (accounts, raised login_throttled)
    else elim (valid_user settings normalized password accounts.users) [
      | none ↦
          (record_failed_attempt settings now key throttle accounts, raised invalid_credentials)
      | some u ↦ elim (upgraded settings draw.salt password u) [
        | raised e ↦ (accounts, raised e)
        | ok v ↦ admit settings now draw key v accounts
      ]
    ]
