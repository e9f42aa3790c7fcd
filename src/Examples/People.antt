-- ===== src/Examples/People.antt =====
-- Accounts, for the examples.
use comfyui_image_frontend.Prelude.{String, true, false, none, some, List, [], ◌∷◌, str_eq}
use comfyui_image_frontend.Accounts.{User, UserSession, Accounts, Settings, admin, user, active}
use comfyui_image_frontend.Accounts.Login.{Draw}
use comfyui_image_frontend.Accounts.Throttled.{Attempt}

abbrev pub settings : Settings
settings = record {
  login_window_seconds = 900;
  login_max_attempts = 2;
  login_block_seconds = 900;
  session_ttl = 3600;
  keyed_hash = λ t. t;
  verify_password = λ h p. str_eq h p;
  hash_with = λ salt p. p;
  password_needs_rehash = λ h. false;
}

abbrev pub ann : User
ann = record {
  id = "u1";
  username_normalized = "ann";
  password_hash = "correct horse";
  role = user;
  state = active;
  must_change_password = false;
  is_bootstrap = false;
  is_system = false;
  session_epoch = 0;
}

abbrev pub root : User
root = record ann { id = "u0"; username_normalized = "root"; role = admin; is_bootstrap = true }

abbrev session : String → String → UserSession
session token owner = record {
  id_hash = token;
  user_id = owner;
  csrf_token = "csrf";
  session_epoch = 0;
  expires_at = 3600;
  revoked_at = none;
}

abbrev pub accounts : Accounts
accounts = record {
  users = root ∷ ann ∷ [];
  sessions = session "t0" "u0" ∷ session "t1" "u1" ∷ session "t2" "u1" ∷ [];
  throttles = [];
  audit_logs = [];
}

abbrev pub after_reset : Accounts
after_reset = record accounts {
  users =
      root
      ∷ record ann { password_hash = "temporary"; must_change_password = true; session_epoch = 1 }
      ∷ [];
  sessions = session "t0" "u0" ∷ [];
  audit_logs =
      record { actor_user_id = some "u0"; target_id = "u1"; action = "password_reset" } ∷ [];
}

abbrev pub after_change : Accounts
after_change = record accounts {
  users = root ∷ record ann { password_hash = "new password"; session_epoch = 1 } ∷ [];
  sessions =
      session "t0" "u0"
      ∷ record (session "t1" "u1") { session_epoch = 1 }
      ∷ record (session "t2" "u1") { revoked_at = some 5 }
      ∷ [];
  audit_logs =
      record { actor_user_id = some "u1"; target_id = "u1"; action = "password_changed" } ∷ [];
}

abbrev pub draw : Draw
draw = record { raw_token = "t3"; csrf_token = "csrf"; salt = "salt" }

abbrev pub guesses : List Attempt
guesses =
    record { now = 10; password = "a"; draw = draw }
    ∷ record { now = 11; password = "b"; draw = draw }
    ∷ record { now = 12; password = "correct horse"; draw = draw }
    ∷ []
