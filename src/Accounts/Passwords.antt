-- ===== src/Accounts/Passwords.antt =====
-- Changes of passwords, which end sessions (backend/app/services/auth.py).
use comfyui_image_frontend.Prelude.{
  ℕ, ◌+◌, String, Bool, true, false, not, ◌&&◌, ◌||◌, Option, none, some, List, [], ◌∷◌, str_eq,
}
use comfyui_image_frontend.Errors.{Result, ok, app_error, AppError, raise_if, ◌>>=◌, ◌>>◌}
use comfyui_image_frontend.Accounts.{
  User, admin, user, UserSession, AuditLog, Accounts, Settings, delete_where, update_where,
  write_user, validate_password, hash_password,
}
use comfyui_image_frontend.Accounts.Sessions.{has_hash, revoke_session}

abbrev is_admin : User → Bool
is_admin u = elim u.role [ admin ↦ true | user ↦ false ]

abbrev audit : Option String → String → String → AuditLog
audit actor target action = record { actor_user_id = actor; target_id = target; action = action }

abbrev verified : Settings → User → Option String → Bool
verified settings u none = false
verified settings u (some password) =
    not (str_eq password "") && settings.verify_password u.password_hash password

abbrev wrong_password : AppError
wrong_password = record {
  code = "invalid_current_password";
  message = "Current password is incorrect.";
  status_code = 403;
  fields = ("current_password", "Incorrect password.") ∷ [];
}

abbrev reused_password : AppError
reused_password = record {
  code = "password_reused";
  message = "New password must differ from the current password.";
  status_code = 400;
  fields = ("new_password", "Choose a different password.") ∷ [];
}

-- Every session of the user but the current one is revoked; the current one takes the new epoch.
unfoldable pub keep_current : ℕ → String → ℕ → String → List UserSession → List UserSession
keep_current now user_id epoch current_session_hash sessions =
    update_where (has_hash current_session_hash) (λ s. record s { session_epoch = epoch })
      (update_where (λ s. str_eq s.user_id user_id && not (has_hash current_session_hash s))
        (revoke_session now) sessions)

-- change_password; nothing is committed where it raises.
unfoldable pub change_password :
    Settings → ℕ → String → User → Option String → String → String → Accounts → Result Accounts
unfolding validate_password hash_password keep_current
change_password settings now salt u current_password new_password current_session_hash accounts = do
  raise_if (not u.must_change_password && not (verified settings u current_password)) wrong_password
  validate_password new_password
  raise_if (settings.verify_password u.password_hash new_password) reused_password
  hashed ← hash_password settings salt new_password
  let v = record u {
    password_hash = hashed;
    must_change_password = false;
    session_epoch = u.session_epoch + 1;
  }
  ok (record accounts {
    users = write_user v accounts.users;
    sessions = keep_current now v.id v.session_epoch current_session_hash accounts.sessions;
    audit_logs = audit (some u.id) u.id "password_changed" ∷ accounts.audit_logs;
  })

abbrev not_admin : AppError
not_admin = app_error "forbidden" "Administrator access is required." 403

abbrev not_ordinary : AppError
not_ordinary = app_error "forbidden" "The bootstrap administrator cannot be modified here." 403

-- reset_password; nothing is committed where it raises.
unfoldable pub reset_password :
    Settings → String → User → User → String → Accounts → Result Accounts
unfolding validate_password hash_password
reset_password settings salt actor target temporary_password accounts = do
  raise_if (not (is_admin actor)) not_admin
  raise_if (is_admin target || target.is_bootstrap || target.is_system) not_ordinary
  validate_password temporary_password
  hashed ← hash_password settings salt temporary_password
  let v = record target {
    password_hash = hashed;
    must_change_password = true;
    session_epoch = target.session_epoch + 1;
  }
  ok (record accounts {
    users = write_user v accounts.users;
    sessions = delete_where (λ s. str_eq s.user_id target.id) accounts.sessions;
    audit_logs = audit (some actor.id) target.id "password_reset" ∷ accounts.audit_logs;
  })

-- revoke_user_sessions
unfoldable pub revoke_user_sessions : User → Accounts → Accounts
revoke_user_sessions u accounts = record accounts {
  users = write_user (record u { session_epoch = u.session_epoch + 1 }) accounts.users;
  sessions = delete_where (λ s. str_eq s.user_id u.id) accounts.sessions;
}
