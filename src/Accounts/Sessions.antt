-- ===== src/Accounts/Sessions.antt =====
-- Sessions by their token (`resolve_session` and `logout` of backend/app/services/auth.py).
use comfyui_image_frontend.Prelude.{
  ℕ, String, Bool, true, false, not, ◌&&◌, Option, none, some, ◌==◌, leb, str_eq, if◌then◌else◌,
}
use comfyui_image_frontend.Accounts.{
  User, UserSession, Accounts, Settings, find, delete_where, update_where,
}
use comfyui_image_frontend.Accounts.Login.{is_live}

abbrev pub has_hash : String → UserSession → Bool
has_hash h s = str_eq s.id_hash h

abbrev pub is_revoked : UserSession → Bool
is_revoked s = elim s.revoked_at [ none ↦ false | some t ↦ true ]

abbrev pub revoke_session : ℕ → UserSession → UserSession
revoke_session now s = record s { revoked_at = some now }

-- The user whom a session that is neither revoked nor expired admits.
unfoldable pub session_user : UserSession → Accounts → Option User
unfolding find
session_user s accounts = elim (find (λ (u : User). str_eq u.id s.user_id) accounts.users) [
  | none ↦ none
  | some u ↦ if is_live u && (s.session_epoch == u.session_epoch) then some u else none
]

abbrev resolve_stored : ℕ → UserSession → Accounts → Accounts × Option (User × UserSession)
resolve_stored now s accounts =
    if is_revoked s
    then (accounts, none)
    else if leb s.expires_at now
    then (record accounts { sessions = delete_where (has_hash s.id_hash) accounts.sessions }, none)
    else elim (session_user s accounts) [
      | none ↦ (
        record accounts {
          sessions = update_where (has_hash s.id_hash) (revoke_session now) accounts.sessions;
        },
        none,
      )
      | some u ↦ (accounts, some (u, s))
    ]

-- resolve_session
unfoldable pub resolve_session :
    Settings → ℕ → Option String → Accounts → Accounts × Option (User × UserSession)
unfolding find session_user
resolve_session settings now none accounts = (accounts, none)
resolve_session settings now (some raw_token) accounts =
    if str_eq raw_token ""
    then (accounts, none)
    else elim (find (has_hash (settings.keyed_hash raw_token)) accounts.sessions) [
      | none ↦ (accounts, none)
      | some s ↦ resolve_stored now s accounts
    ]

-- logout
unfoldable pub logout : Settings → ℕ → Option String → Accounts → Accounts
logout settings now none accounts = accounts
logout settings now (some raw_token) accounts =
    if str_eq raw_token "" then accounts else record accounts {
      sessions =
          update_where (λ s. has_hash (settings.keyed_hash raw_token) s && not (is_revoked s))
            (revoke_session now) accounts.sessions;
    }
