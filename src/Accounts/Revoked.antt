-- ===== src/Accounts/Revoked.antt =====
-- Whom a session admits, and which sessions are left after a change.
use mathlib.Core.List.{Memᴰ}
use comfyui_image_frontend.Prelude.{
  ℕ, ◌+◌, ◌≡◌, ◌≢◌, refl, sym, ◌∙◌, subst, ap, inl, inr, String, Bool, true, false, not, ◌&&◌,
  Option, none, some, some_inj, List, [], ◌∷◌, ◌==◌, leb, str_eq, str_eq_iff, Bool-cases,
  Option-cases, arith, if◌then◌else◌,
}
use comfyui_image_frontend.Prelude.Members.{Memᴰ-of_filter, Memᴰ-of_map}
use comfyui_image_frontend.Errors.{ok}
use comfyui_image_frontend.Accounts.{
  User, UserSession, Accounts, Settings, find, delete_where, update_where,
}
use comfyui_image_frontend.Accounts.Login.{is_live}
use comfyui_image_frontend.Accounts.Sessions.{
  has_hash, is_revoked, revoke_session, session_user, resolve_session, logout,
}
use comfyui_image_frontend.Accounts.Passwords.{keep_current, change_password, reset_password}

pub find-some :
    {A : Type 0} (p : A → Bool) (xs : List A) {a : A}
    → find p xs ≡ some a
    → Memᴰ a xs × (p a ≡ true)
unfolding find
find-some p [] e = cc
find-some p (x ∷ xs) {a} e = elim (Bool-cases (p x)) [
  | inl h ↦ let q : x ≡ a = some_inj (rw h at e) in (Memᴰ.head (sym q), ap p (sym q) ∙ h)
  | inr h ↦ let (m, k) = find-some p xs (rw h at e) in (Memᴰ.tail m, k)
]

-- The session admits this user at this time.
pub record IsAdmitted (settings : Settings) (now : ℕ) (token : String) (accounts : Accounts)
    (u : User) (s : UserSession) : Type 0 where
  pub stored : Memᴰ s accounts.sessions
  pub of_token : s.id_hash ≡ settings.keyed_hash token
  pub not_revoked : is_revoked s ≡ false
  pub not_expired : leb s.expires_at now ≡ false
  pub owner : Memᴰ u accounts.users
  pub owned : u.id ≡ s.user_id
  pub live : is_live u ≡ true
  pub epoch : (s.session_epoch == u.session_epoch) ≡ true

session_user-some :
    (s : UserSession) (accounts : Accounts) {u : User}
    → session_user s accounts ≡ some u
    → Memᴰ u accounts.users
      × (u.id ≡ s.user_id)
      × (is_live u ≡ true)
      × ((s.session_epoch == u.session_epoch) ≡ true)
unfolding session_user
session_user-some s accounts {u} e =
    let (f, live, epoch) = found e in
    let (m, q) = find-some _ accounts.users f in (m, (str_eq_iff u.id s.user_id).0 q, live, epoch)
  where
    found :
        session_user s accounts ≡ some u
        → (find (λ (u : User). str_eq u.id s.user_id) accounts.users ≡ some u)
          × (is_live u ≡ true)
          × ((s.session_epoch == u.session_epoch) ≡ true)
    found e = ground arith

resolve-inversion :
    (settings : Settings) (now : ℕ) (token : String) (accounts : Accounts) {u : User}
    {s : UserSession}
    → (resolve_session settings now (some token) accounts).1 ≡ some (u, s)
    → (find (has_hash (settings.keyed_hash token)) accounts.sessions ≡ some s)
      × (is_revoked s ≡ false)
      × (leb s.expires_at now ≡ false)
      × (session_user s accounts ≡ some u)
      × ((resolve_session settings now (some token) accounts).0 ≡ accounts)
unfolding resolve_session
resolve-inversion settings now token accounts e = ground arith

-- A token admits a user only by a stored session of that token that is neither revoked nor expired,
-- belongs to that user and carries the user's current epoch, while the user is active and no system
-- account; the accounts are then unchanged.
pub resolve_session-IsAdmitted :
    (settings : Settings) (now : ℕ) (token : String) (accounts : Accounts) {u : User}
    {s : UserSession}
    → (resolve_session settings now (some token) accounts).1 ≡ some (u, s)
    → IsAdmitted settings now token accounts u s
      × ((resolve_session settings now (some token) accounts).0 ≡ accounts)
resolve_session-IsAdmitted settings now token accounts {u} {s} e =
    let (f, fresh, lasting, owner, same) = resolve-inversion settings now token accounts e in
    let (stored, h) = find-some _ accounts.sessions f in
    let (m, owned, live, epoch) = session_user-some s accounts owner in
    (
      record {
        stored = stored;
        of_token = (str_eq_iff s.id_hash (settings.keyed_hash token)).0 h;
        not_revoked = fresh;
        not_expired = lasting;
        owner = m;
        owned = owned;
        live = live;
        epoch = epoch;
      },
      same,
    )

reset-sessions :
    (settings : Settings) (salt : String) (actor target : User) (password : String)
    (accounts : Accounts) {after : Accounts}
    → reset_password settings salt actor target password accounts ≡ ok after
    → after.sessions ≡ delete_where (λ s. str_eq s.user_id target.id) accounts.sessions
unfolding reset_password
reset-sessions settings salt actor target password accounts e = ground arith

-- After an administrator has reset a user's password, no token admits that user.
pub reset_password-ends_sessions :
    (settings : Settings) (salt : String) (actor target : User) (password : String)
    (accounts : Accounts) {after : Accounts}
    → reset_password settings salt actor target password accounts ≡ ok after
    → (now : ℕ) (token : String) {u : User} {s : UserSession}
    → (resolve_session settings now (some token) after).1 ≡ some (u, s)
    → u.id ≢ target.id
reset_password-ends_sessions settings salt actor target password accounts {after} h now token {u}
      {s} e q =
    let (a, _) = resolve_session-IsAdmitted settings now token after e in
    let sessions = reset-sessions settings salt actor target password accounts h in
    let (_, kept) = Memᴰ-of_filter _ s accounts.sessions (subst (Memᴰ s) sessions a.stored) in
    cc (kept, (str_eq_iff s.user_id target.id).1 (sym a.owned ∙ q))

change-sessions :
    (settings : Settings) (now : ℕ) (salt : String) (u : User) (current : Option String)
    (password hash : String) (accounts : Accounts) {after : Accounts}
    → change_password settings now salt u current password hash accounts ≡ ok after
    → after.sessions ≡ keep_current now u.id (u.session_epoch + 1) hash accounts.sessions
unfolding change_password
change-sessions settings now salt u current password hash accounts {after} e = ground arith

abbrev revoked_copy : ℕ → String → String → UserSession → UserSession
revoked_copy now user_id hash t =
    if str_eq t.user_id user_id && not (has_hash hash t) then revoke_session now t else t

abbrev kept_copy : ℕ → String → ℕ → String → UserSession → UserSession
kept_copy now user_id epoch hash t =
    if has_hash hash (revoked_copy now user_id hash t)
    then record (revoked_copy now user_id hash t) { session_epoch = epoch }
    else revoked_copy now user_id hash t

kept-current :
    (now : ℕ) (user_id : String) (epoch : ℕ) (hash : String) (s t : UserSession)
    → s ≡ kept_copy now user_id epoch hash t
    → is_revoked s ≡ false
    → str_eq s.user_id user_id ≡ true
    → has_hash hash s ≡ true
kept-current now user_id epoch hash s t e r o =
    subst (λ s. has_hash hash s ≡ true) (sym e)
      (copy (subst (λ s. is_revoked s ≡ false) e r)
        (subst (λ s. str_eq s.user_id user_id ≡ true) e o))
  where
    copy :
        is_revoked (kept_copy now user_id epoch hash t) ≡ false
        → str_eq (kept_copy now user_id epoch hash t).user_id user_id ≡ true
        → has_hash hash (kept_copy now user_id epoch hash t) ≡ true
    copy r o = ground arith

-- After a user has changed the password, no token admits that user but one of the session in which
-- the password was changed.
pub change_password-keeps_current :
    (settings : Settings) (now : ℕ) (salt : String) (u : User) (current : Option String)
    (password hash : String) (accounts : Accounts) {after : Accounts}
    → change_password settings now salt u current password hash accounts ≡ ok after
    → (later : ℕ) (token : String) {v : User} {s : UserSession}
    → (resolve_session settings later (some token) after).1 ≡ some (v, s)
    → v.id ≡ u.id
    → settings.keyed_hash token ≡ hash
unfolding keep_current
change_password-keeps_current settings now salt u current password hash accounts {after} h later
      token {v} {s} e q =
    let (a, _) = resolve_session-IsAdmitted settings later token after e in
    let epoch = u.session_epoch + 1 in
    let sessions = change-sessions settings now salt u current password hash accounts h in
    let (x, m, ex) = Memᴰ-of_map _ s _ (subst (Memᴰ s) sessions a.stored) in
    let (t, _, et) = Memᴰ-of_map _ x accounts.sessions m in
    let copy : s ≡ kept_copy now u.id epoch hash t =
      ex
      ∙ ap (λ (y : UserSession). if has_hash hash y then record y { session_epoch = epoch } else y)
          et in
    sym a.of_token
    ∙ (str_eq_iff s.id_hash hash).0 (
        kept-current now u.id epoch hash s t copy a.not_revoked
          ((str_eq_iff s.user_id u.id).1 (sym a.owned ∙ q)))

logout-sessions :
    (settings : Settings) (now : ℕ) (token : String) (accounts : Accounts)
    → str_eq token "" ≡ false
    → (logout settings now (some token) accounts).sessions
      ≡ update_where
          (λ s. has_hash (settings.keyed_hash token) s && not (is_revoked s))
          (revoke_session now)
          accounts.sessions
unfolding logout
logout-sessions settings now token accounts e = rw (logout, e) refl

-- After a logout its token admits nobody.
pub logout-ends_session :
    (settings : Settings) (now later : ℕ) (token : String) (accounts : Accounts)
    → (resolve_session settings later (some token) (logout settings now (some token) accounts)).1
      ≡ none
unfolding resolve_session logout
logout-ends_session settings now later token accounts = elim (Bool-cases (str_eq token "")) [
  | inl e ↦ rw (resolve_session, e) refl
  | inr e ↦
      elim (Option-cases
        (resolve_session settings later (some token)
          (logout settings now (some token) accounts)).1) [
            | inl none_admitted ↦ none_admitted
            | inr ((u, s), k) ↦
                let (a, _) =
                  resolve_session-IsAdmitted settings later token
                    (logout settings now (some token) accounts) k in
                let (t, _, q) =
                  Memᴰ-of_map _ s accounts.sessions
                    (subst (Memᴰ s) (logout-sessions settings now token accounts e) a.stored) in
                absurd (
                  left s t q a.not_revoked
                    ((str_eq_iff s.id_hash (settings.keyed_hash token)).1 a.of_token))
          ]
]
  where
    ended : UserSession → UserSession
    ended t =
        if has_hash (settings.keyed_hash token) t && not (is_revoked t)
        then revoke_session now t
        else t

    stays :
        (t : UserSession)
        → is_revoked (ended t) ≡ false
        → has_hash (settings.keyed_hash token) (ended t) ≡ true
        → ⊥
    stays t r h = ground arith

    left :
        (s t : UserSession)
        → s ≡ ended t
        → is_revoked s ≡ false
        → has_hash (settings.keyed_hash token) s ≡ true
        → ⊥
    left s t q r h =
        stays t (subst (λ s. is_revoked s ≡ false) q r)
          (subst (λ s. has_hash (settings.keyed_hash token) s ≡ true) q h)
