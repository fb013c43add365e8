-- ===== src/Accounts/Sessions.antt =====
-- app/services/auth.py and app/services/bootstrap.py: logins, sessions, password changes, and the
-- first administrator.
use task_ticket_management_s.Prelude.{
  ℕ, ◌+◌, ◌-◌, ◌*◌, zero, suc, Bool, true, false, Option, none, some, List, [], ◌∷◌, ◌++◌, ◌&&◌,
  ◌||◌, not, ◌==◌, leb, length, if◌then◌else◌, Text, text_eq, strip,
}
use task_ticket_management_s.Store.{
  User, Organization, UserSession, SecurityAction, Db, login_identity, login_failed,
  login_succeeded, logged_out, password_changed,
}
use task_ticket_management_s.Action.{
  Env, Result, ok, err, auth_error, runtime_error, Action, pure, raise, gets, or_raise, raise_if,
  modify, ◌>>=◌, ◌>>◌, transaction, login_rate_limited, invalid_credentials,
  password_confirmation_mismatch, password_unchanged, invalid_current_password, credentials_changed,
}
use task_ticket_management_s.Projects.Queries.{find_user}
use task_ticket_management_s.Accounts.Passwords.{
  Secrets, Settings, Identity, normalized_login_id, validate_password, hash_password,
  verify_password,
}
use task_ticket_management_s.Accounts.Queries.{
  find_organization, find_login, find_active_session, lock_verified_user, set_users, set_sessions,
  replace_password, revoke_token, revoke_user_sessions, count_identity_failures,
  count_address_failures, record_audit_event,
}

-- Times are in microseconds.
abbrev pub second : ℕ
second = 1_000_000

abbrev pub minute : ℕ
minute = 60 * second

abbrev pub identity_of : User → Organization → ℕ → Identity
identity_of u o session_id = record {
  id = u.id;
  login_id = u.login_id;
  display_name = u.display_name;
  organization = o.name;
  system_role = u.system_role;
  must_change_password = u.must_change_password;
  session_id = session_id;
}

-- `_build_identity`; the foreign key gives the user an organization.
unfoldable pub build_identity : User → ℕ → Action Identity
build_identity u session_id = do
  found ← gets (λ db. find_organization u.organization_id db.organizations)
  o ← or_raise found runtime_error
  pure (identity_of u o session_id)

abbrev pub identity_of_session : Option UserSession → Action (Option Identity)
identity_of_session none = pure none
identity_of_session (some s) = do
  found ← gets (λ db. find_user s.user_id db.users)
  u ← or_raise found runtime_error
  identity ← build_identity u s.id
  pure (some identity)

-- Whether a cookie can be a token.
abbrev pub has_token_length : Text → Bool
has_token_length token = length token == 43

abbrev pub find_identity : Bool → Secrets → ℕ → Text → Action (Option Identity)
find_identity true secrets now token = do
  stored ← gets (λ db. find_active_session db (secrets.token_digest token) now)
  identity_of_session stored
find_identity false secrets now token = pure none

unfoldable pub get_current_identity : Secrets → ℕ → Option Text → Action (Option Identity)
unfolding build_identity
get_current_identity secrets now none = pure none
get_current_identity secrets now (some token) =
    find_identity (has_token_length token) secrets now token

abbrev pub take : {A : Type 0} → ℕ → List A → List A
take zero xs = []
take (suc n) [] = []
take (suc n) (x ∷ xs) = x ∷ take n xs

-- The event of a failed login.
abbrev pub failure_event : Env → Option ℕ → Text → Text → Db → Db
failure_event env actor key ip = record_audit_event (record {
  action = login_failed;
  actor_user_id = actor;
  target = some (login_identity key);
  ip_address = some ip;
  occurred_at = env.now;
  changed_fields = [];
})

abbrev pub session_event : Env → SecurityAction → ℕ → Text → Db → Db
session_event env action uid ip = record_audit_event (record {
  action = action;
  actor_user_id = some uid;
  target = none;
  ip_address = some ip;
  occurred_at = env.now;
  changed_fields = [];
})

abbrev pub window_start : Env → Settings → ℕ
window_start env settings = env.now - settings.login_window_seconds * second

-- Whether the throttle holds for the login id or for the address.
unfoldable pub is_limited : Env → Settings → Text → Text → Db → Bool
is_limited env settings key ip db =
    leb settings.login_max_failures
      (count_identity_failures (window_start env settings) key db.events)
    || leb settings.login_max_ip_failures
        (count_address_failures (window_start env settings) ip db.events)

-- The user of the login id, where the id is well formed.
abbrev pub find_candidate : Option Text → List User → Option User
find_candidate none us = none
find_candidate (some login) us = find_login login us

abbrev pub stored_hash : Option User → Option Text
stored_hash none = none
stored_hash (some u) = some u.password_hash

-- The user who may log in: verified, there, active, and locked.
abbrev pub accepted_user : Secrets → Text → Db → Option User → Option User
accepted_user secrets password db none = none
accepted_user secrets password db (some u) =
    if verify_password secrets password (some u.password_hash)
      && u.is_active
      && lock_verified_user db u.id u.password_hash
    then some u
    else none

abbrev pub revoke_previous : Secrets → Option Text → Db → Db
revoke_previous secrets none db = db
revoke_previous secrets (some token) db =
    if has_token_length token
    then set_sessions (revoke_token (secrets.token_digest token) db.sessions) db
    else db

-- `UserSession(…)`
abbrev pub new_session : Env → Secrets → Settings → User → UserSession
new_session env secrets settings u = record {
  id = env.new_id;
  user_id = u.id;
  token_hash = secrets.token_digest secrets.new_session_token;
  created_at = env.now;
  expires_at = env.now + settings.lifetime_minutes * minute;
  revoked_at = none;
}

-- The transaction returns the exception that is raised after it has committed, or the token.
abbrev pub open_session :
    Env
    → Secrets
    → Settings
    → Text
    → Text
    → Option Text
    → Option User
    → Action (Result (Text × Identity))
open_session env secrets settings key ip previous none = do
  modify (failure_event env none key ip)
  pure (err (auth_error invalid_credentials 401))
open_session env secrets settings key ip previous (some u) = do
  modify (revoke_previous secrets previous)
  modify (λ db. set_sessions (db.sessions ++ new_session env secrets settings u ∷ []) db)
  identity ← build_identity u env.new_id
  modify (session_event env login_succeeded u.id ip)
  pure (ok (secrets.new_session_token, identity))

abbrev pub unless_limited : {A : Type 0} → Bool → Action (Result A) → Action (Result A)
unless_limited true m = pure (err (auth_error login_rate_limited 429))
unless_limited false m = m

-- `identity_key` of `authenticate_user`
unfoldable pub login_key : Secrets → Text → Text
unfolding strip
login_key secrets login = secrets.token_digest (take 100 (secrets.lower (strip login)))

unfoldable pub authenticate_body :
    Env → Secrets → Settings → Text → Text → Text → Option Text → Action (Result (Text × Identity))
unfolding normalized_login_id verify_password login_key
authenticate_body env secrets settings login password ip previous = do
  let key = login_key secrets login
  before ← gets (λ db. db)
  unless_limited (is_limited env settings key ip before) (
      open_session env secrets settings key ip previous (
        accepted_user secrets password before
          (find_candidate (normalized_login_id secrets login) before.users)))

-- `if error: raise error`
abbrev pub raise_result : {A : Type 0} → Result A → Action A
raise_result (ok a) = pure a
raise_result (err e) = raise e

unfoldable pub authenticate_user :
    Env → Secrets → Settings → Text → Text → Text → Option Text → Action (Text × Identity)
authenticate_user env secrets settings login password ip previous =
    transaction (authenticate_body env secrets settings login password ip previous) >>= raise_result

unfoldable pub logout_user : Env → Secrets → Identity → Text → Text → Action (Unit {0})
logout_user env secrets identity token ip = transaction do
  modify (λ db. set_sessions (revoke_token (secrets.token_digest token) db.sessions) db)
  modify (session_event env logged_out identity.id ip)

-- The user whose current password is verified.
abbrev pub verified_user : Secrets → Text → Option User → Option User
verified_user secrets password none = none
verified_user secrets password (some u) =
    if verify_password secrets password (some u.password_hash) && u.is_active then some u else none

abbrev pub put_password : Env → Secrets → User → Text → Text → Bool → Action (Result (Unit {0}))
put_password env secrets u new_hash ip false = pure (err (auth_error credentials_changed 409))
put_password env secrets u new_hash ip true = do
  modify (λ db. set_users (replace_password u.id u.password_hash new_hash db.users) db)
  modify (λ db. set_sessions (revoke_user_sessions u.id db.sessions) db)
  modify (session_event env password_changed u.id ip)
  pure (ok tt)

abbrev pub write_password :
    Env → Secrets → Identity → Text → Text → Text → Option User → Action (Result (Unit {0}))
write_password env secrets identity new_password key ip none = do
  modify (failure_event env (some identity.id) key ip)
  pure (err (auth_error invalid_current_password 400))
write_password env secrets identity new_password key ip (some u) = do
  new_hash ← hash_password secrets new_password
  locked ← gets (λ db. lock_verified_user db u.id u.password_hash)
  put_password env secrets u new_hash ip locked

unfoldable pub change_password_body :
    Env → Secrets → Settings → Identity → Text → Text → Text → Action (Result (Unit {0}))
unfolding verify_password
change_password_body env secrets settings identity current_password new_password ip = do
  let key = secrets.token_digest identity.login_id
  before ← gets (λ db. db)
  unless_limited (is_limited env settings key ip before) (
      write_password env secrets identity new_password key ip
        (verified_user secrets current_password (find_login identity.login_id before.users)))

unfoldable pub change_user_password :
    Env → Secrets → Settings → Identity → Text → Text → Text → Text → Action (Unit {0})
change_user_password env secrets settings identity current_password new_password confirmation ip =
    do
      raise_if (not (text_eq new_password confirmation))
          (auth_error password_confirmation_mismatch 400)
      validate_password new_password
      raise_if (text_eq current_password new_password) (auth_error password_unchanged 400)
      changed ←
          transaction
            (change_password_body env secrets settings identity current_password new_password ip)
      raise_result changed
