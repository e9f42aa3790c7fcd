-- ===== src/Accounts.antt =====
-- Local accounts, their sessions and the login throttle (backend/app/models.py,
-- backend/app/security.py). The hash functions of argon2 and hmac are parameters.
pub mod Login
pub mod Sessions
pub mod Passwords
pub mod Revoked
pub mod Throttled
use comfyui_image_frontend.Prelude.{
  ℕ, String, Bool, not, Option, none, some, List, [], ◌∷◌, map, filter, ltb, str_eq, if◌then◌else◌,
}
use comfyui_image_frontend.Text.{len}
use comfyui_image_frontend.Errors.{Result, AppError, raised, ok, ◌>>=◌, ◌>>◌, raise_if}

pub data UserRole : Type 0 where
  admin user : UserRole

pub data UserState : Type 0 where
  active deleting : UserState

pub record User : Type 0 where
  pub id : String
  pub username_normalized : String
  pub password_hash : String
  pub role : UserRole
  pub state : UserState
  pub must_change_password : Bool
  pub is_bootstrap : Bool
  pub is_system : Bool
  pub session_epoch : ℕ

pub record UserSession : Type 0 where
  pub id_hash : String
  pub user_id : String
  pub csrf_token : String
  pub session_epoch : ℕ
  pub expires_at : ℕ
  pub revoked_at : Option ℕ

pub record LoginThrottle : Type 0 where
  pub key_hash : String
  pub attempts : ℕ
  pub window_started_at : ℕ
  pub blocked_until : Option ℕ

pub record AuditLog : Type 0 where
  pub actor_user_id : Option String
  pub target_id : String
  pub action : String

pub record Accounts : Type 0 where
  pub users : List User
  pub sessions : List UserSession
  pub throttles : List LoginThrottle
  pub audit_logs : List AuditLog

-- The configuration, with the functions of the libraries: the keyed digest of a text, the check of
-- a password against its hash, the hash of a password with a salt, and whether a hash is outdated.
pub record Settings : Type 0 where
  pub login_window_seconds : ℕ
  pub login_max_attempts : ℕ
  pub login_block_seconds : ℕ
  pub session_ttl : ℕ
  pub keyed_hash : String → String
  pub verify_password : String → String → Bool
  pub hash_with : String → String → String
  pub password_needs_rehash : String → Bool

module _ {A : Type 0} where
  -- The first row that a query selects.
  unfoldable pub find : (A → Bool) → List A → Option A
  find p [] = none
  find p (a ∷ rest) = if p a then some a else find p rest

  abbrev pub delete_where : (A → Bool) → List A → List A
  delete_where p = filter (λ a. not (p a))

  abbrev pub update_where : (A → Bool) → (A → A) → List A → List A
  update_where p f = map (λ a. if p a then f a else a)

abbrev field_error : String → String → String → String → AppError
field_error code message name text = record {
  code = code;
  message = message;
  status_code = 400;
  fields = (name, text) ∷ [];
}

abbrev pub weak_password : AppError
weak_password =
    field_error "weak_password" "Password must contain at least 8 characters." "password"
      "Choose a longer password."

abbrev pub long_password : AppError
long_password = field_error "invalid_password" "Password is too long." "password" "Too long."

-- validate_password
unfoldable pub validate_password : String → Result (Unit {0})
validate_password password = do
  raise_if (ltb (len password) 8) weak_password
  raise_if (ltb 1024 (len password)) long_password

-- hash_password
unfoldable pub hash_password : Settings → String → String → Result String
unfolding validate_password
hash_password settings salt password = do
  validate_password password
  ok (settings.hash_with salt password)

abbrev pub write_user : User → List User → List User
write_user u = update_where (λ v. str_eq v.id u.id) (λ v. u)
