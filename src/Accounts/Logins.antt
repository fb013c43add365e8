-- ===== src/Accounts/Logins.antt =====
-- Logins, logouts and password changes keep the accounts valid.
use task_ticket_management_s.Prelude.{
  ℕ, ◌≡◌, refl, ◌&&◌, Bool, true, false, Option, none, some, List, In, Text, find_first-In, &&-true,
  Bool-cases, inl, inr, text_eq,
}
use task_ticket_management_s.Store.{User, Db}
use task_ticket_management_s.Action.{Env, Result, ok, err, Action, transaction}
use task_ticket_management_s.Action.Triple.{
  Returns, Returns-bind, Returns-pure, Returns-gets, Returns-modify, transaction_keeps,
}
use task_ticket_management_s.Action.Frame.{Keeps, keeps_rules, Returns-Keeps}
use task_ticket_management_s.Accounts.Passwords.{
  Secrets, Settings, Identity, validate_password, verify_password, normalized_login_id,
}
use task_ticket_management_s.Accounts.Queries.{lock_verified_user}
use task_ticket_management_s.Accounts.Sessions.{
  build_identity, is_limited, find_candidate, accepted_user, revoke_previous, has_token_length,
  new_session, open_session, unless_limited, login_key, authenticate_body, raise_result,
  authenticate_user, logout_user, put_password, write_password, change_password_body,
  change_user_password,
}
use task_ticket_management_s.Accounts.Keeps.{
  append-session, revoked_token, revoked_sessions, replaced_password,
}
use task_ticket_management_s.Accounts.Edited.{hash_password-Keeps}
use task_ticket_management_s.Accounts.Validity.{AreValid}

-- The user who may log in is a user of the table, active, with that password.
pub record IsAccepted (secrets : Secrets) (password : Text) (us : List User) (u : User)
    : Type 0 where
  pub stands : In u us
  pub active : u.is_active ≡ true
  pub verified : verify_password secrets password (some u.password_hash) ≡ true

accepted_user-some :
    (secrets : Secrets) (password : Text) (db : Db) (o : Option User) (u : User)
    → accepted_user secrets password db o ≡ some u
    → (o ≡ some u)
      × (u.is_active ≡ true)
      × (verify_password secrets password (some u.password_hash) ≡ true)
accepted_user-some secrets password db none u h = cc
accepted_user-some secrets password db (some w) u h =
    elim (Bool-cases (
      verify_password secrets password (some w.password_hash)
      && w.is_active
      && lock_verified_user db w.id w.password_hash)) [
        | inl t ↦
            let both : some w ≡ some u = rw t at h in
            let same : w ≡ u = cc in
            let (left, _) =
              &&-true (verify_password secrets password (some w.password_hash) && w.is_active)
                (lock_verified_user db w.id w.password_hash) t in
            let (verified, active) =
              &&-true (verify_password secrets password (some w.password_hash)) w.is_active left in
            (both, rw (← same) active, rw (← same) verified)
        | inr f ↦ let none_there : none ≡ some u = rw f at h in cc
      ]

find_candidate-In :
    (login : Option Text) (us : List User) (u : User) → find_candidate login us ≡ some u → In u us
find_candidate-In none us u h = cc
find_candidate-In (some login) us u h =
    (find_first-In (λ (u : User). text_eq u.login_id login) us u h).0

pub accepted_user-IsAccepted :
    (secrets : Secrets) (password : Text) (db : Db) (login : Option Text) (u : User)
    → accepted_user secrets password db (find_candidate login db.users) ≡ some u
    → IsAccepted secrets password db.users u
accepted_user-IsAccepted secrets password db login u h =
    let (found, active, verified) =
      accepted_user-some secrets password db (find_candidate login db.users) u h in
    record {
      stands = find_candidate-In login db.users u found;
      active = active;
      verified = verified;
    }

revoked_previous :
    (secrets : Secrets) (previous : Option Text) (db : Db)
    → AreValid db
    → AreValid (revoke_previous secrets previous db)
      × ((revoke_previous secrets previous db).users ≡ db.users)
revoked_previous secrets none db v = (v, refl)
revoked_previous secrets (some token) db v = elim (Bool-cases (has_token_length token)) [
  | inl t ↦
      rw t
        (revoked_token (secrets.token_digest token) db.users db.organizations db.sessions v, refl)
  | inr f ↦ rw f (v, refl)
]

pub build_identity-Keeps : (P : Db → Type 0) (u : User) (i : ℕ) → Keeps P (build_identity u i)
unfolding build_identity
build_identity-Keeps P u i = search keeps_rules depth 20

pub raise_result-Keeps : {A : Type 0} (P : Db → Type 0) (r : Result A) → Keeps P (raise_result r)
raise_result-Keeps P (ok a) = search keeps_rules
raise_result-Keeps P (err e) = search keeps_rules

module _ (env : Env) (secrets : Secrets) (settings : Settings) (db : Db) (valid : AreValid db) where
  open_session-Returns :
      (key ip password : Text) (previous : Option Text) (o : Option User)
      → ((u : User) → o ≡ some u → IsAccepted secrets password db.users u)
      → Returns
          (λ (_ : Result (Text × Identity)) d. AreValid d)
          (open_session env secrets settings key ip previous o db)
  open_session-Returns key ip password previous none h =
      Returns-modify _ _ _ _ (Returns-pure _ _ _ valid)
  open_session-Returns key ip password previous (some u) h =
      let accepted = h u refl in
      let (kept, same) = revoked_previous secrets previous db valid in
      Returns-modify _ _ _ _ (
        Returns-modify _ _ _ _ (
          Returns-bind _ (λ _ d. AreValid d) _ _ _
            (Returns-Keeps AreValid _ _ (build_identity-Keeps AreValid u env.new_id) (
              append-session (new_session env secrets settings u) u _ _ _ kept
                (rw same accepted.stands) accepted.active refl))
            λ identity d v. Returns-modify _ _ _ _ (Returns-pure _ _ _ v)))

  unless_limited-Returns :
      (b : Bool) (m : Action (Result (Text × Identity)))
      → Returns (λ _ d. AreValid d) (m db)
      → Returns (λ _ d. AreValid d) (unless_limited b m db)
  unless_limited-Returns true m h = Returns-pure _ _ _ valid
  unless_limited-Returns false m h = h

  authenticate_body-Returns :
      (login password ip : Text) (previous : Option Text)
      → Returns
          (λ (_ : Result (Text × Identity)) d. AreValid d)
          (authenticate_body env secrets settings login password ip previous db)
  unfolding authenticate_body
  authenticate_body-Returns login password ip previous = Returns-gets _ _ _ _ (
      unless_limited-Returns (is_limited env settings (login_key secrets login) ip db)
        (open_session env secrets settings (login_key secrets login) ip previous (
          accepted_user secrets password db
            (find_candidate (normalized_login_id secrets login) db.users)))
        (open_session-Returns (login_key secrets login) ip password previous _
          (accepted_user-IsAccepted secrets password db (normalized_login_id secrets login))))

pub authenticate_user-Keeps :
    (env : Env) (secrets : Secrets) (settings : Settings) (login password ip : Text)
    (previous : Option Text)
    → Keeps AreValid (authenticate_user env secrets settings login password ip previous)
unfolding authenticate_user
authenticate_user-Keeps env secrets settings login password ip previous =
    search (keeps_rules, raise_result-Keeps, authenticate_transaction)
  where
    authenticate_transaction :
        Keeps AreValid
          (transaction (authenticate_body env secrets settings login password ip previous))
    authenticate_transaction = record {
      at = λ db v.
          transaction_keeps _ AreValid _ db v (λ _ _ h. h)
            (authenticate_body-Returns env secrets settings db v login password ip previous);
    }

pub logout_user-Keeps :
    (env : Env) (secrets : Secrets) (identity : Identity) (token ip : Text)
    → Keeps AreValid (logout_user env secrets identity token ip)
unfolding logout_user
logout_user-Keeps env secrets identity token ip = search (keeps_rules, revoked_token) depth 20

module _ (env : Env) (secrets : Secrets) where
  put_password-Keeps :
      (u : User) (h ip : Text) (b : Bool) → Keeps AreValid (put_password env secrets u h ip b)
  put_password-Keeps u h ip false = search keeps_rules
  put_password-Keeps u h ip true =
      search (keeps_rules, replaced_password, revoked_sessions) depth 30 fits 2000

  write_password-Keeps :
      (identity : Identity) (password key ip : Text) (o : Option User)
      → Keeps AreValid (write_password env secrets identity password key ip o)
  write_password-Keeps identity password key ip none = search keeps_rules depth 20
  write_password-Keeps identity password key ip (some u) =
      search (keeps_rules, hash_password-Keeps, put_password-Keeps) depth 20

pub unless_limited-Keeps :
    {A : Type 0} (P : Db → Type 0) (b : Bool) (m : Action (Result A))
    → Keeps P m
    → Keeps P (unless_limited b m)
unless_limited-Keeps P true m k = search keeps_rules
unless_limited-Keeps P false m k = k

pub change_user_password-Keeps :
    (env : Env) (secrets : Secrets) (settings : Settings) (identity : Identity)
    (current password confirmation ip : Text)
    → Keeps AreValid
        (change_user_password env secrets settings identity current password confirmation ip)
unfolding change_user_password change_password_body validate_password
change_user_password-Keeps env secrets settings identity current password confirmation ip =
    search (keeps_rules, raise_result-Keeps, unless_limited-Keeps, write_password-Keeps) depth 30
      fits 3000
