-- ===== src/Accounts/Tokens.antt =====
-- A token from its login to its logout.
use task_ticket_management_s.Prelude.{
  ℕ, ◌+◌, ◌*◌, ◌<◌, ◌≡◌, refl, ap, ◌∙◌, Bool, true, false, not, ◌&&◌, Option, none, some, List, [],
  ◌∷◌, ◌++◌, ◌==◌, ltb, is_none, Bool-cases, Option-cases, inl, inr, In, any, any-false, select,
  select-In, find_first, find_first-In, find_first-none, length, arith, Text, text_eq, text_eq_refl,
  not-true, ==→eq,
}
use task_ticket_management_s.Store.{User, UserSession, Organization, Db}
use task_ticket_management_s.Action.{
  Env, Result, ok, err, Action, pure, raise, gets, or_raise, modify, ◌>>=◌, transaction,
}
use task_ticket_management_s.Action.Triple.{
  Returns, raised, Returns-bind, Returns-pure, Returns-gets, Returns-or_raise, Returns-modify,
  Returns-transaction, Returns-elim,
}
use task_ticket_management_s.Projects.Queries.{find_user}
use task_ticket_management_s.Projects.Members.{user_is_active}
use task_ticket_management_s.Accounts.Passwords.{Secrets, Settings, Identity, normalized_login_id}
use task_ticket_management_s.Accounts.Queries.{find_organization, find_active_session}
use task_ticket_management_s.Accounts.Sessions.{
  minute, identity_of, build_identity, identity_of_session, has_token_length, get_current_identity,
  is_limited, login_key, find_candidate, accepted_user, revoke_previous, new_session, open_session,
  unless_limited, authenticate_body, raise_result, authenticate_user, logout_user,
}
use task_ticket_management_s.Accounts.Logins.{IsAccepted, accepted_user-IsAccepted}
use task_ticket_management_s.Accounts.Validity.{AreValid, same_user}

-- What a login leaves: the user, the session after the ones that were there, and the identity.
pub record IsLoggedIn (env : Env) (secrets : Secrets) (settings : Settings) (password : Text)
    (before after : Db) (token : Text) (identity : Identity) : Type 0 where
  pub user : User
  pub accepted : IsAccepted secrets password before.users user
  pub others : List UserSession
  pub sessions : after.sessions ≡ others ++ new_session env secrets settings user ∷ []
  pub older : (s : UserSession) → In s others → In s before.sessions
  pub users : after.users ≡ before.users
  pub organizations : after.organizations ≡ before.organizations
  pub organization : Organization
  pub found : find_organization user.organization_id before.organizations ≡ some organization
  pub has_token : token ≡ secrets.new_session_token
  pub has_identity : identity ≡ identity_of user organization env.new_id

-- Dropping the previous session leaves older sessions, and nothing else changed.
revoke_previous-older :
    (secrets : Secrets) (previous : Option Text) (db : Db)
    → ((s : UserSession) → In s (revoke_previous secrets previous db).sessions → In s db.sessions)
      × ((revoke_previous secrets previous db).users ≡ db.users)
      × ((revoke_previous secrets previous db).organizations ≡ db.organizations)
revoke_previous-older secrets none db = (λ s m. m, refl, refl)
revoke_previous-older secrets (some token) db = elim (Bool-cases (has_token_length token)) [
  | inl t ↦ rw t (
    λ s m.
        (select-In (λ (s : UserSession). not (text_eq s.token_hash (secrets.token_digest token)))
          db.sessions s m).0,
    refl,
    refl,
  )
  | inr f ↦ rw f (λ s m. m, refl, refl)
]

Returns-identity :
    {B : Type 0} (Q : B → Db → Type 0) (u : User) (i : ℕ) (k : Identity → Action B) (db : Db)
    → ((o : Organization)
        → find_organization u.organization_id db.organizations ≡ some o
        → Returns Q (k (identity_of u o i) db))
    → Returns Q ((build_identity u i >>= k) db)
unfolding build_identity
Returns-identity Q u i k db next =
    Returns-bind Q
      (λ v d.
        (d ≡ db)
        × ((o : Organization) × (find_organization u.organization_id db.organizations ≡ some o)
            × (v ≡ identity_of u o i)))
      _ k db
      (Returns-gets _ _ _ _
        (Returns-or_raise _ _ _ _ _ λ o found. Returns-pure _ _ _ (refl, (o, found, refl))))
      λ v d (same, (o, found, is)). rw (same, is) (next o found)

module _ (env : Env) (secrets : Secrets) (settings : Settings) (password : Text) (db : Db) where
  -- The outcome of the transaction.
  abbrev Outcome : Result (Text × Identity) → Db → Type 0
  Outcome (ok (token, identity)) d = IsLoggedIn env secrets settings password db d token identity
  Outcome (err e) d = Unit

  open_session-Outcome :
      (key ip : Text) (previous : Option Text) (o : Option User)
      → ((u : User) → o ≡ some u → IsAccepted secrets password db.users u)
      → Returns Outcome (open_session env secrets settings key ip previous o db)
  open_session-Outcome key ip previous none h = Returns-modify _ _ _ _ (Returns-pure _ _ _ tt)
  open_session-Outcome key ip previous (some u) h =
      let (older, users, organizations) = revoke_previous-older secrets previous db in
      Returns-modify _ _ _ _ (
        Returns-modify _ _ _ _ (
          Returns-identity _ u env.new_id _ _ λ o found. Returns-modify _ _ _ _ (
            Returns-pure _ _ _ (record {
              user = u;
              accepted = h u refl;
              others = (revoke_previous secrets previous db).sessions;
              sessions = refl;
              older = older;
              users = users;
              organizations = organizations;
              organization = o;
              found = rw (← organizations) found;
              has_token = refl;
              has_identity = refl;
            }))))

  unless_limited-Outcome :
      (b : Bool) (m : Action (Result (Text × Identity)))
      → Returns Outcome (m db)
      → Returns Outcome (unless_limited b m db)
  unless_limited-Outcome true m h = Returns-pure _ _ _ tt
  unless_limited-Outcome false m h = h

  authenticate_body-Outcome :
      (login ip : Text) (previous : Option Text)
      → Returns Outcome (authenticate_body env secrets settings login password ip previous db)
  unfolding authenticate_body
  authenticate_body-Outcome login ip previous = Returns-gets _ _ _ _ (
      unless_limited-Outcome (is_limited env settings (login_key secrets login) ip db)
        (open_session env secrets settings (login_key secrets login) ip previous (
          accepted_user secrets password db
            (find_candidate (normalized_login_id secrets login) db.users)))
        (open_session-Outcome (login_key secrets login) ip previous _
          (accepted_user-IsAccepted secrets password db (normalized_login_id secrets login))))

  raised-Outcome :
      (r : Result (Text × Identity)) (d : Db)
      → Outcome r d
      → Returns (λ p e. IsLoggedIn env secrets settings password db e p.0 p.1) (raise_result r d)
  unfolding raise
  raised-Outcome (ok p) d h = Returns-pure _ _ _ h
  raised-Outcome (err e) d h = raised e d

  pub authenticate_user-IsLoggedIn :
      (login ip : Text) (previous : Option Text)
      → Returns
          (λ p d. IsLoggedIn env secrets settings password db d p.0 p.1)
          (authenticate_user env secrets settings login password ip previous db)
  unfolding authenticate_user
  authenticate_user-IsLoggedIn login ip previous =
      Returns-bind _ Outcome _ _ _
        (Returns-transaction _ _ _ (authenticate_body-Outcome login ip previous)) raised-Outcome

-- The session with a token is the last one, if no other has the token.
find_session_last :
    (ss : List UserSession) (s : UserSession) (p : UserSession → Bool)
    → ((r : UserSession) → In r ss → p r ≡ false)
    → p s ≡ true
    → find_first p (ss ++ s ∷ []) ≡ some s
find_session_last [] s p h k = rw k refl
find_session_last (r ∷ ss) s p h k =
    rw (h r (inl refl)) (find_session_last ss s p (λ q m. h q (inr m)) k)

-- The user of a table with unique ids.
find_user-In : (db : Db) (u : User) → AreValid db → In u db.users → find_user u.id db.users ≡ some u
find_user-In db u v m = elim (Option-cases (find_user u.id db.users)) [
  | inl missing ↦
      let absent = find_first-none (λ (w : User). w.id == u.id) db.users u missing m in
      absurd (ground arith)
  | inr (w, found) ↦
      let (n, is) = find_first-In (λ (w : User). w.id == u.id) db.users w found in
      let same = same_user db.users w u v.unique n m (==→eq w.id u.id is) in found ∙ ap some same
]

identity_of_session-found :
    (s : UserSession) (u : User) (o : Organization) (d : Db)
    → find_user s.user_id d.users ≡ some u
    → find_organization u.organization_id d.organizations ≡ some o
    → identity_of_session (some s) d ≡ (ok (some (identity_of u o s.id)), d)
unfolding ◌>>=◌ gets or_raise pure build_identity
identity_of_session-found s u o d e f = rw (e, f) refl

get_current_identity-found :
    (secrets : Secrets) (now : ℕ) (token : Text) (d : Db) (s : UserSession)
    → has_token_length token ≡ true
    → find_active_session d (secrets.token_digest token) now ≡ some s
    → get_current_identity secrets now (some token) d ≡ identity_of_session (some s) d
unfolding get_current_identity ◌>>=◌ gets
get_current_identity-found secrets now token d s e f = rw (e, f) refl

get_current_identity-missing :
    (secrets : Secrets) (now : ℕ) (token : Text) (d : Db)
    → find_active_session d (secrets.token_digest token) now ≡ none
    → get_current_identity secrets now (some token) d ≡ (ok none, d)
unfolding get_current_identity ◌>>=◌ gets pure
get_current_identity-missing secrets now token d f = elim (Bool-cases (has_token_length token)) [
  | inl t ↦ rw (t, f) refl
  | inr g ↦ rw g refl
]

module _ (env : Env) (secrets : Secrets) (settings : Settings) (password : Text) (db d : Db)
    (token : Text) (identity : Identity) (now : ℕ) where
  abbrev fits : UserSession → Bool
  fits s =
      text_eq s.token_hash (secrets.token_digest token)
      && ltb now s.expires_at
      && is_none s.revoked_at
      && user_is_active (find_user s.user_id d.users)

  session_found :
      AreValid db
      → (h : IsLoggedIn env secrets settings password db d token identity)
      → any (λ s. text_eq s.token_hash (secrets.token_digest secrets.new_session_token)) db.sessions
        ≡ false
      → now < env.now + settings.lifetime_minutes * minute
      → find_active_session d (secrets.token_digest token) now
        ≡ some (new_session env secrets settings h.user)
  session_found v h fresh early =
      let there = find_user-In db h.user v h.accepted.stands in
      let in_time : ltb now (env.now + settings.lifetime_minutes * minute) ≡ true = ground arith in
      rw h.sessions (
        find_session_last h.others (new_session env secrets settings h.user) fits
          (λ r m.
            let other =
              any-false
                (λ (s : UserSession).
                  text_eq s.token_hash (secrets.token_digest secrets.new_session_token))
                db.sessions r fresh (h.older r m) in
            rw (h.has_token, other) refl)
          (rw
            (
              h.has_token,
              text_eq_refl (secrets.token_digest secrets.new_session_token),
              in_time,
              h.users,
              there,
              h.accepted.active,
            )
            refl))

  logged_in :
      AreValid db
      → (h : IsLoggedIn env secrets settings password db d token identity)
      → length secrets.new_session_token ≡ 43
      → any (λ s. text_eq s.token_hash (secrets.token_digest secrets.new_session_token)) db.sessions
        ≡ false
      → now < env.now + settings.lifetime_minutes * minute
      → get_current_identity secrets now (some token) d ≡ (ok (some identity), d)
  logged_in v h long fresh early =
      let there = find_user-In db h.user v h.accepted.stands in
      let length_fits : has_token_length token ≡ true = rw (h.has_token, long) refl in
      rw h.has_identity (
        get_current_identity-found secrets now token d _ length_fits (session_found v h fresh early)
        ∙ identity_of_session-found (new_session env secrets settings h.user) h.user h.organization
            d (rw h.users there) (rw h.organizations h.found))

-- If the accounts are valid, the token that `token_urlsafe` draws has 43 characters and no session
-- has its digest, and `authenticate_user` returns a token and an identity, then
-- `get_current_identity` finds that identity by that token at any time before the session expires.
pub get_current_identity-authenticate_user :
    (env : Env) (secrets : Secrets) (settings : Settings) (login password ip : Text)
    (previous : Option Text) (db : Db) (token : Text) (identity : Identity) (now : ℕ)
    → AreValid db
    → length secrets.new_session_token ≡ 43
    → any (λ s. text_eq s.token_hash (secrets.token_digest secrets.new_session_token)) db.sessions
      ≡ false
    → (authenticate_user env secrets settings login password ip previous db).0
      ≡ ok (token, identity)
    → now < env.now + settings.lifetime_minutes * minute
    → (get_current_identity secrets now
        (some token)
        (authenticate_user env secrets settings login password ip previous db).1).0
      ≡ ok (some identity)
get_current_identity-authenticate_user env secrets settings login password ip previous db token
      identity now v long fresh returns early =
    let h =
      Returns-elim _ _ (token, identity)
        (authenticate_user-IsLoggedIn env secrets settings password db login ip previous) returns in
    ap (λ r. r.0)
      (logged_in env secrets settings password db
        (authenticate_user env secrets settings login password ip previous db).1 token identity now
        v h long fresh early)

no_session :
    (p q : UserSession → Bool) (ss : List UserSession)
    → ((s : UserSession) → In s ss → (q s ≡ true) → p s ≡ false)
    → find_first p (select q ss) ≡ none
no_session p q ss h = elim (Option-cases (find_first p (select q ss))) [
  | inl e ↦ e
  | inr (s, e) ↦
      let (m, fits) = find_first-In p (select q ss) s e in
      let (n, kept) = select-In q ss s m in let not_fits = h s n kept in absurd (ground arith)
]

-- After `logout_user` with a token, `get_current_identity` finds nobody by that token, at any
-- time.
pub get_current_identity-logout_user :
    (env : Env) (secrets : Secrets) (identity : Identity) (token ip : Text) (now : ℕ) (db : Db)
    → (get_current_identity secrets now
        (some token)
        (logout_user env secrets identity token ip db).1).0
      ≡ ok none
unfolding logout_user transaction ◌>>=◌ modify
get_current_identity-logout_user env secrets identity token ip now db =
    ap (λ r. r.0)
      (get_current_identity-missing secrets now token _ (
        no_session _ (λ (s : UserSession). not (text_eq s.token_hash (secrets.token_digest token)))
          db.sessions
          λ s m other.
            rw (not-true (text_eq s.token_hash (secrets.token_digest token)) other) refl))
