-- ===== src/Accounts/Refused.antt =====
-- What `authenticate_user` of app/services/auth.py raises, and what it leaves in the tables then.
use task_ticket_management_s.Prelude.{
  ◌≤◌, ◌-◌, ◌*◌, ◌≡◌, refl, true, false, ◌&&◌, ◌⊎◌, inl, inr, Option, none, some, [], ◌∷◌, ◌++◌,
  leb, Bool-cases, Option-cases, ||-true, ||-false, find_first-In, In, Text, arith,
}
use task_ticket_management_s.Store.{User, Db, login_failed, login_identity}
use task_ticket_management_s.Action.{
  Env, Failure, auth_error, runtime_error, login_rate_limited, invalid_credentials, Result, ok, err,
  ◌>>=◌, transaction,
}
use task_ticket_management_s.Accounts.Passwords.{
  Secrets, Settings, normalized_login_id, verify_password,
}
use task_ticket_management_s.Accounts.Queries.{
  find_organization, lock_verified_user, count_identity_failures, count_address_failures,
}
use task_ticket_management_s.Accounts.Sessions.{
  second, is_limited, window_start, login_key, find_candidate, accepted_user, revoke_previous,
  has_token_length, open_session, build_identity, authenticate_body, raise_result,
  authenticate_user,
}

-- The failures in the window that ends now, of the login id or from the address, have reached the
-- number that the settings name.
abbrev pub IsAtLimit : Env → Settings → Text → Text → Db → Type 0
IsAtLimit env settings key ip db =
    (settings.login_max_failures
      ≤ count_identity_failures (env.now - settings.login_window_seconds * second) key db.events)
    ⊎ (settings.login_max_ip_failures
        ≤ count_address_failures (env.now - settings.login_window_seconds * second) ip db.events)

-- The database with a failed login more in the log.
abbrev pub with_failure : Env → Text → Text → Db → Db
with_failure env key ip db = record db {
  events =
      db.events
      ++ record {
        action = login_failed;
        actor_user_id = none;
        target = some (login_identity key);
        ip_address = some ip;
        occurred_at = env.now;
        changed_fields = [];
      }
        ∷ [];
}

pub data IsRefused (env : Env) (secrets : Secrets) (settings : Settings) (login ip : Text) (db : Db)
    : Failure → Db → Type 0 where
  limited :
      IsAtLimit env settings (login_key secrets login) ip db
      → IsRefused env secrets settings login ip db (auth_error login_rate_limited 429) db
  not_accepted :
      (IsAtLimit env settings (login_key secrets login) ip db → ⊥)
      → IsRefused env secrets settings login ip db
          (auth_error invalid_credentials 401)
          (with_failure env (login_key secrets login) ip db)
  no_organization :
      (u : User)
      → In u db.users
      → find_organization u.organization_id db.organizations ≡ none
      → IsRefused env secrets settings login ip db runtime_error db

is_limited-IsAtLimit :
    (env : Env) (settings : Settings) (key ip : Text) (db : Db)
    → is_limited env settings key ip db ≡ true
    → IsAtLimit env settings key ip db
unfolding is_limited
is_limited-IsAtLimit env settings key ip db h =
    elim (||-true
      (leb settings.login_max_failures
        (count_identity_failures (window_start env settings) key db.events))
      (leb settings.login_max_ip_failures
        (count_address_failures (window_start env settings) ip db.events))
      h) [ inl a ↦ inl (ground (arith, a)) | inr b ↦ inr (ground (arith, b)) ]

is_limited-below :
    (env : Env) (settings : Settings) (key ip : Text) (db : Db)
    → is_limited env settings key ip db ≡ false
    → IsAtLimit env settings key ip db
    → ⊥
unfolding is_limited
is_limited-below env settings key ip db h limit =
    let (a, b) =
      ||-false
        (leb settings.login_max_failures
          (count_identity_failures (window_start env settings) key db.events))
        (leb settings.login_max_ip_failures
          (count_address_failures (window_start env settings) ip db.events))
        h in
    elim limit [ inl l ↦ ground (arith, a, l) | inr l ↦ ground (arith, b, l) ]

find_candidate-In :
    (login : Option Text) (db : Db) (u : User)
    → find_candidate login db.users ≡ some u
    → In u db.users
find_candidate-In none db u h = cc
find_candidate-In (some l) db u h = (find_first-In _ db.users u h).0

accepted_user-same :
    (secrets : Secrets) (password : Text) (db : Db) (o : Option User) (u : User)
    → accepted_user secrets password db o ≡ some u
    → o ≡ some u
accepted_user-same secrets password db none u h = cc
accepted_user-same secrets password db (some x) u h =
    elim (Bool-cases (
      verify_password secrets password (some x.password_hash)
      && x.is_active
      && lock_verified_user db x.id x.password_hash)) [
        | inl t ↦ rw t at h
        | inr f ↦ let nobody : none ≡ some u = rw f at h in cc
      ]

revoke_previous-organizations :
    (secrets : Secrets) (previous : Option Text) (db : Db)
    → (revoke_previous secrets previous db).organizations ≡ db.organizations
revoke_previous-organizations secrets none db = refl
revoke_previous-organizations secrets (some token) db = elim (Bool-cases (has_token_length token)) [
  | inl t ↦ rw t refl
  | inr f ↦ rw f refl
]

-- A call that returned, or that was refused for one of the reasons.
data Outcome {A : Type 0} (Q : Failure → Db → Type 0) : Result A × Db → Type 0 where
  returned : (a : A) (d : Db) → Outcome Q (ok a, d)
  refused : (e : Failure) (d : Db) → Q e d → Outcome Q (err e, d)

Outcome-elim :
    {A : Type 0} (Q : Failure → Db → Type 0) (r : Result A × Db) (e : Failure)
    → Outcome Q r
    → r.0 ≡ err e
    → Q e r.1
Outcome-elim Q r e (returned a d) h = cc
Outcome-elim Q r e (refused f d q) h = let same : f ≡ e = cc in rw (← same) q

module _ (env : Env) (secrets : Secrets) (settings : Settings) (login password ip : Text)
    (previous : Option Text) (db : Db) where
  abbrev Q : Failure → Db → Type 0
  Q = IsRefused env secrets settings login ip db

  opened :
      (o : Option User)
      → ((u : User) → o ≡ some u → In u db.users)
      → (IsAtLimit env settings (login_key secrets login) ip db → ⊥)
      → Outcome Q (
          (transaction (open_session env secrets settings (login_key secrets login) ip previous o)
              >>= raise_result)
            db)
  unfolding transaction ◌>>=◌ build_identity
  opened none h below = refused _ _ (not_accepted below)
  opened (some u) h below =
      let same = revoke_previous-organizations secrets previous db in
      elim (Option-cases
        (find_organization u.organization_id (revoke_previous secrets previous db).organizations)) [
          | inl e ↦ rw e (refused _ _ (no_organization u (h u refl) (rw same at e)))
          | inr (o, e) ↦ rw e (returned _ _)
        ]

  authenticate_user-Outcome :
      Outcome Q (authenticate_user env secrets settings login password ip previous db)
  unfolding authenticate_user authenticate_body transaction ◌>>=◌
  authenticate_user-Outcome =
      let candidate : Option User = find_candidate (normalized_login_id secrets login) db.users in
      elim (Bool-cases (is_limited env settings (login_key secrets login) ip db)) [
        | inl t ↦ rw t (refused _ _ (limited (is_limited-IsAtLimit env settings _ ip db t)))
        | inr f ↦ rw f (
            opened (accepted_user secrets password db candidate)
              (λ u e.
                find_candidate-In _ db u (accepted_user-same secrets password db candidate u e))
              (is_limited-below env settings _ ip db f))
      ]

  -- If `authenticate_user` raises, then there are three cases: the failures of the login id or
  -- from the address in the window have reached their limit, the error is `login_rate_limited`
  -- with 429, and nothing is written; or neither limit is reached, the error is
  -- `invalid_credentials` with 401, be the user unknown, inactive or the password wrong, and the
  -- tables are as before but for one more failed login in the log, which outlasts the exception;
  -- or a user of the table has no organization, which is a `RuntimeError`, and nothing is written.
  pub authenticate_user-IsRefused :
      (e : Failure)
      → (authenticate_user env secrets settings login password ip previous db).0 ≡ err e
      → IsRefused env secrets settings login ip db e
          (authenticate_user env secrets settings login password ip previous db).1
  authenticate_user-IsRefused e raises = Outcome-elim Q _ e authenticate_user-Outcome raises
