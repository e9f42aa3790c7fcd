-- ===== src/Examples/Access.antt =====
-- The theorems on accounts at concrete rows.
use comfyui_image_frontend.Prelude.{◌≤◌, ◌≡◌, refl, ◌≢◌, none, some, arith}
use comfyui_image_frontend.Accounts.{User, UserSession, find}
use comfyui_image_frontend.Accounts.Sessions.{resolve_session, logout}
use comfyui_image_frontend.Accounts.Passwords.{change_password, reset_password}
use comfyui_image_frontend.Accounts.Revoked.{
  IsAdmitted, resolve_session-IsAdmitted, reset_password-ends_sessions,
  change_password-keeps_current, logout-ends_session,
}
use comfyui_image_frontend.Accounts.Throttled.{wrong_guesses, wrong_guesses-le}
use comfyui_image_frontend.Examples.People.{
  settings, ann, root, accounts, after_reset, after_change, guesses,
}

abbrev root_session : UserSession
root_session = record {
  id_hash = "t0";
  user_id = "u0";
  csrf_token = "csrf";
  session_epoch = 0;
  expires_at = 3600;
  revoked_at = none;
}

abbrev kept_session : UserSession
kept_session = record root_session { id_hash = "t1"; user_id = "u1"; session_epoch = 1 }

abbrev changed_ann : User
changed_ann = record ann { password_hash = "new password"; session_epoch = 1 }

resolve_session-IsAdmitted_example :
    IsAdmitted settings 7 "t0" accounts root root_session
    × ((resolve_session settings 7 (some "t0") accounts).0 ≡ accounts)
unfolding resolve_session
resolve_session-IsAdmitted_example =
    resolve_session-IsAdmitted settings 7 "t0" accounts {u = root} {s = root_session} refl

reset_password-ends_sessions_example : root.id ≢ ann.id
unfolding resolve_session reset_password
reset_password-ends_sessions_example =
    reset_password-ends_sessions settings "salt" root ann "temporary" accounts {after = after_reset}
      refl 7 "t0" {u = root} {s = root_session} refl

change_password-keeps_current_example : settings.keyed_hash "t1" ≡ "t1"
unfolding resolve_session change_password
change_password-keeps_current_example =
    change_password-keeps_current settings 5 "salt" ann (some "correct horse") "new password" "t1"
      accounts {after = after_change} refl 7 "t1" {v = changed_ann} {s = kept_session} refl refl

logout-ends_session_example :
    (resolve_session settings 9 (some "t1") (logout settings 8 (some "t1") accounts)).1 ≡ none
logout-ends_session_example = logout-ends_session settings 8 9 "t1" accounts

-- The right password comes too late: two wrong ones were tried before.
wrong_guesses-le_example : wrong_guesses settings "ann" "ip" guesses accounts ≤ 2
unfolding find
wrong_guesses-le_example =
    wrong_guesses-le settings "ann" "ip" 10 guesses accounts (omega arith) refl (
      (omega arith, omega arith, omega arith),
      ((omega arith, omega arith, omega arith), ((omega arith, omega arith, omega arith), tt)),
    )

wrong_guesses_run : wrong_guesses settings "ann" "ip" guesses accounts ≡ 2
unfolding wrong_guesses
wrong_guesses_run = refl
