-- ===== src/Accounts/Bootstrap.antt =====
-- app/services/bootstrap.py: the first system administrator, on a database without users.
use task_ticket_management_s.Prelude.{
  ℕ, ◌≡◌, refl, true, not, ◌||◌, Option, none, some, List, [], ◌∷◌, ◌++◌, ltb, length, find_first,
  find_first-In, In-append_right, inl, inr, arith, Text, text_eq, strip,
}
use task_ticket_management_s.Document.{has_items}
use task_ticket_management_s.Store.{SystemRole, User, Organization, Db, bootstrap_admin_created}
use task_ticket_management_s.Action.{
  Env, auth_error, runtime_error, ok, Action, pure, gets, or_raise, raise_if, modify, ◌>>=◌, ◌>>◌,
  transaction, invalid_login_id,
}
use task_ticket_management_s.Action.Triple.{
  Returns, Returns-bind, Returns-pure, Returns-gets, Returns-or_raise, Returns-raise_if,
  Returns-modify, Returns-transaction, Returns-elim,
}
use task_ticket_management_s.Accounts.Passwords.{Secrets, normalized_login_id, hash_password}
use task_ticket_management_s.Accounts.Queries.{set_users, set_organizations}
use task_ticket_management_s.Accounts.Users.{user_event}
use task_ticket_management_s.Accounts.Tree.{HasOrganization, find_organization-some, Returns-check}
use task_ticket_management_s.Accounts.Edited.{hash_password-Keeps}
use task_ticket_management_s.Accounts.Validity.{AreValid, IsValidAccounts}

-- The settings `bootstrap.organization_key` and `bootstrap.organization_name`, and the id of a new
-- organization.
pub record BootstrapSettings : Type 0 where
  pub organization_key : Text
  pub organization_name : Text
  pub new_organization_id : ℕ

abbrev pub first_organization : BootstrapSettings → Organization
first_organization settings = record {
  id = settings.new_organization_id;
  key = settings.organization_key;
  name = settings.organization_name;
  parent_id = none;
  description = [];
  is_active = true;
}

abbrev pub add_if_missing : BootstrapSettings → Option Organization → Action Organization
add_if_missing settings (some o) = pure o
add_if_missing settings none = do
  modify (λ db. set_organizations (db.organizations ++ first_organization settings ∷ []) db)
  pure (first_organization settings)

-- `bootstrap_organization` of app/repositories/auth.py
unfoldable pub bootstrap_organization : BootstrapSettings → Action Organization
bootstrap_organization settings = do
  found ← gets (λ db. find_first (λ o. text_eq o.key settings.organization_key) db.organizations)
  o ← add_if_missing settings found
  raise_if (not o.is_active) runtime_error
  pure o

abbrev pub first_user : Env → Text → Text → Text → ℕ → User
first_user env login display_name password_hash oid = record {
  id = env.new_id;
  login_id = login;
  display_name = display_name;
  system_role = SystemRole.system_admin;
  is_active = true;
  must_change_password = true;
  email = none;
  password_hash = password_hash;
  organization_id = oid;
  deactivated_at = none;
  deactivated_by_id = none;
}

unfoldable pub create_first_user :
    Env → Secrets → BootstrapSettings → Text → Text → Text → Action (Option ℕ)
unfolding normalized_login_id strip
create_first_user env secrets settings login password display_name = do
  normalized ← or_raise (normalized_login_id secrets login) (auth_error invalid_login_id 400)
  raise_if (not (has_items (strip display_name)) || ltb 200 (length display_name)) runtime_error
  password_hash ← hash_password secrets password
  o ← bootstrap_organization settings
  modify (λ db.
      set_users (db.users ++ first_user env normalized (strip display_name) password_hash o.id ∷ [])
        db)
  modify (user_event env (some env.new_id) none bootstrap_admin_created env.new_id [])
  pure (some env.new_id)

-- `if repository.count_users(session): return None`
abbrev pub unless_users : List User → Action (Option ℕ) → Action (Option ℕ)
unless_users [] m = m
unless_users (_ ∷ _) m = pure none

unfoldable pub bootstrap_admin :
    Env → Secrets → BootstrapSettings → Text → Text → Text → Action (Option ℕ)
bootstrap_admin env secrets settings login password display_name = transaction do
  us ← gets (λ db. db.users)
  unless_users us (create_first_user env secrets settings login password display_name)

-- The organization is there.
bootstrap_organization-Returns :
    (settings : BootstrapSettings) (db : Db)
    → Returns
        (λ o d.
          (d ≡ record db { organizations = d.organizations })
          × HasOrganization d.organizations o.id)
        (bootstrap_organization settings db)
unfolding bootstrap_organization
bootstrap_organization-Returns settings db = Returns-gets _ _ _ _ (
    Returns-bind _
      (λ o d.
        (d ≡ record db { organizations = d.organizations }) × HasOrganization d.organizations o.id)
      _ _ _
      (added (find_first (λ o. text_eq o.key settings.organization_key) db.organizations) refl)
      λ o d h. Returns-raise_if _ _ _ _ _ λ _. Returns-pure _ _ _ h)
  where
    added :
        (found : Option Organization)
        → find_first (λ o. text_eq o.key settings.organization_key) db.organizations ≡ found
        → Returns
            (λ o d.
              (d ≡ record db { organizations = d.organizations })
              × HasOrganization d.organizations o.id)
            (add_if_missing settings found db)
    added none e = Returns-modify _ _ _ _ (
        Returns-pure _ _ _ (
          refl,
          (
            first_organization settings,
            In-append_right db.organizations (first_organization settings ∷ []) _ (inl refl),
            refl,
          ),
        ))
    added (some o) e = Returns-pure _ _ _ (
      refl,
      (
        o,
        (find_first-In (λ (x : Organization). text_eq x.key settings.organization_key)
            db.organizations o e).0,
        refl,
      ),
    )

first_user-AreValid :
    (env : Env) (login display_name password_hash : Text) (oid : ℕ) (db : Db)
    → HasOrganization db.organizations oid
    → IsValidAccounts (first_user env login display_name password_hash oid ∷ []) db.organizations []
first_user-AreValid env login display_name password_hash oid db h = record {
  unique = (refl, tt);
  row = λ u m. elim m [
    | inl e ↦ rw e (record {
      deactivated_at = refl;
      deactivated_by = refl;
      organization = find_organization-some db.organizations oid h;
    })
    | inr empty ↦ absurd empty
  ];
  session = λ s m. absurd m;
  administered = omega arith;
}

create_first_user-Returns :
    (env : Env) (secrets : Secrets) (settings : BootstrapSettings)
    (login password display_name : Text) (db : Db)
    → db.users ≡ []
    → db.sessions ≡ []
    → Returns
        (λ i d. (i ≡ some env.new_id) × AreValid d)
        (create_first_user env secrets settings login password display_name db)
unfolding create_first_user
create_first_user-Returns env secrets settings login password display_name db no_users no_sessions =
    Returns-or_raise _ _ _ _ _ λ normalized found. Returns-raise_if _ _ _ _ _ λ _.
      Returns-check _ _ _ _ (hash_password-Keeps _ secrets _) λ password_hash.
        Returns-bind _ _ _ _ _ (bootstrap_organization-Returns settings db) λ o d (same, h).
          rw same (
            Returns-modify _ _ _ _ (
              Returns-modify _ _ _ _ (
                Returns-pure _ _ _ (
                  refl,
                  rw (no_users, no_sessions)
                      (first_user-AreValid env normalized (strip display_name) password_hash o.id d
                        h),
                ))))

no_users-Returns :
    (Q : Option ℕ → Db → Type 0) (us : List User) (m : Action (Option ℕ)) (db : Db)
    → us ≡ []
    → Returns Q (m db)
    → Returns Q (unless_users us m db)
no_users-Returns Q [] m db e h = h
no_users-Returns Q (u ∷ us) m db e h = cc

-- If there are no users and no sessions and `bootstrap_admin` returns, then it returns the id of
-- the user that it has created, and the accounts are valid: there is an active system
-- administrator.
pub bootstrap_admin-AreValid :
    (env : Env) (secrets : Secrets) (settings : BootstrapSettings)
    (login password display_name : Text) (db : Db) (i : Option ℕ)
    → db.users ≡ []
    → db.sessions ≡ []
    → (bootstrap_admin env secrets settings login password display_name db).0 ≡ ok i
    → (i ≡ some env.new_id)
      × AreValid (bootstrap_admin env secrets settings login password display_name db).1
unfolding bootstrap_admin
bootstrap_admin-AreValid env secrets settings login password display_name db i no_users no_sessions
      returns =
    Returns-elim _ _ i block returns
  where
    block :
        Returns
          (λ i d. (i ≡ some env.new_id) × AreValid d)
          (bootstrap_admin env secrets settings login password display_name db)
    block = Returns-transaction _ _ _ (
        Returns-gets _ _ _ _ (
          no_users-Returns _ db.users _ db no_users (
            create_first_user-Returns env secrets settings login password display_name db no_users
              no_sessions)))
