-- ===== src/Accounts/Untouched.antt =====
-- What the services of accounts leave alone: tickets, relations, projects, memberships and comments.
use task_ticket_management_s.Prelude.{
  ℕ, Bool, true, false, Option, none, some, List, Text, if◌then◌else◌,
}
use task_ticket_management_s.Store.{
  Ticket, TicketRelation, Project, ProjectMember, Comment, User, Organization, Db,
}
use task_ticket_management_s.Action.{Env, Code}
use task_ticket_management_s.Action.Frame.{Keeps, keeps_rules}
use task_ticket_management_s.Untouched.{when-Keeps}
use task_ticket_management_s.Accounts.Passwords.{Secrets, Settings, Identity, validate_password}
use task_ticket_management_s.Accounts.Queries.{set_sessions, revoke_token}
use task_ticket_management_s.Accounts.Organizations.{
  OrganizationCreate, OrganizationUpdate, require_active_parent, create_organization_body,
  create_organization, raise_code, require_parent, write_organization, update_organization_body,
  update_organization,
}
use task_ticket_management_s.Accounts.Users.{
  UserCreate, UserUpdate, create_user_body, create_user, managed_user,
  protect_last_active_administrator, ActivityChange, revoke_if, write_user, update_user_body,
  update_user, reset_password_body, reset_user_password,
}
use task_ticket_management_s.Accounts.Sessions.{
  revoke_previous, open_session, authenticate_body, authenticate_user, logout_user, put_password,
  write_password, change_password_body, change_user_password, has_token_length,
}
use task_ticket_management_s.Accounts.Tree.{
  require_administrator-Keeps, list_organizations-Keeps, get_active_organization-Keeps,
}
use task_ticket_management_s.Accounts.Edited.{hash_password-Keeps}
use task_ticket_management_s.Accounts.Logins.{
  build_identity-Keeps, raise_result-Keeps, unless_limited-Keeps,
}

abbrev pub Tables : Type 1
Tables =
    List Ticket → List TicketRelation → List Project → List ProjectMember → List Comment → Type 0

abbrev pub Others : Tables → Db → Type 0
Others V db = V db.tickets db.relations db.projects db.members db.comments

module _ (V : Tables) (env : Env) where
  require_active_parent-Keeps :
      (actor : ℕ) (parent : Option ℕ) → Keeps (Others V) (require_active_parent actor parent)
  require_active_parent-Keeps actor none = search keeps_rules
  require_active_parent-Keeps actor (some p) =
      search (keeps_rules, get_active_organization-Keeps) depth 20

  raise_code-Keeps : (c : Option Code) → Keeps (Others V) (raise_code c)
  raise_code-Keeps none = search keeps_rules
  raise_code-Keeps (some c) = search keeps_rules

  require_parent-Keeps :
      (actor oid : ℕ) (o : Organization) (payload : OrganizationUpdate) (parent : Option ℕ)
      → Keeps (Others V) (require_parent actor oid o payload parent)
  unfolding require_parent
  require_parent-Keeps actor oid o payload none = search keeps_rules
  require_parent-Keeps actor oid o payload (some p) =
      search (keeps_rules, when-Keeps, raise_code-Keeps, get_active_organization-Keeps) depth 40
        fits 4000

  pub create_organization-Keeps :
      (key : Text) (actor : ℕ) (payload : OrganizationCreate) (ip : Text)
      → Keeps (Others V) (create_organization env key actor payload ip)
  unfolding create_organization create_organization_body
  create_organization-Keeps key actor payload ip =
      search (keeps_rules, require_administrator-Keeps, require_active_parent-Keeps) depth 40 fits
        4000

  pub update_organization-Keeps :
      (actor oid : ℕ) (payload : OrganizationUpdate) (ip : Text)
      → Keeps (Others V) (update_organization env actor oid payload ip)
  unfolding update_organization update_organization_body write_organization
  update_organization-Keeps actor oid payload ip =
      search
        (
          keeps_rules, when-Keeps, require_administrator-Keeps, require_parent-Keeps,
          list_organizations-Keeps,
        )
        depth 40 fits 4000

  pub create_user-Keeps :
      (secrets : Secrets) (actor : ℕ) (payload : UserCreate) (ip : Text)
      → Keeps (Others V) (create_user env secrets actor payload ip)
  unfolding create_user create_user_body
  create_user-Keeps secrets actor payload ip =
      search
        (
          keeps_rules, require_administrator-Keeps, get_active_organization-Keeps,
          hash_password-Keeps,
        )
        depth 40 fits 4000

  revoke_if-Others :
      (c : ActivityChange) (uid : ℕ) (db : Db) → Others V db → Others V (revoke_if c uid db)
  revoke_if-Others ActivityChange.deactivates uid db h = h
  revoke_if-Others ActivityChange.reactivates uid db h = h
  revoke_if-Others ActivityChange.keeps_activity uid db h = h

  write_user-Keeps :
      (actor : ℕ) (ip : Text) (u : User) (payload : UserUpdate)
      → Keeps (Others V) (write_user env actor ip u payload)
  unfolding write_user
  write_user-Keeps actor ip u payload = search (keeps_rules, revoke_if-Others) depth 40 fits 4000

  managed_user-Keeps : (uid : ℕ) → Keeps (Others V) (managed_user uid)
  unfolding managed_user
  managed_user-Keeps uid = search keeps_rules depth 40 fits 4000

  pub update_user-Keeps :
      (actor uid : ℕ) (payload : UserUpdate) (ip : Text)
      → Keeps (Others V) (update_user env actor uid payload ip)
  unfolding update_user update_user_body protect_last_active_administrator
  update_user-Keeps actor uid payload ip =
      search
        (
          keeps_rules, when-Keeps, require_administrator-Keeps, get_active_organization-Keeps,
          managed_user-Keeps, write_user-Keeps,
        )
        depth 40 fits 4000

  pub reset_user_password-Keeps :
      (secrets : Secrets) (actor uid : ℕ) (password ip : Text)
      → Keeps (Others V) (reset_user_password env secrets actor uid password ip)
  unfolding reset_user_password reset_password_body
  reset_user_password-Keeps secrets actor uid password ip =
      search (keeps_rules, require_administrator-Keeps, managed_user-Keeps, hash_password-Keeps)
        depth 40 fits 4000

  revoke_previous-Others :
      (secrets : Secrets) (token : Option Text) (db : Db)
      → Others V db
      → Others V (revoke_previous secrets token db)
  revoke_previous-Others secrets none db h = h
  revoke_previous-Others secrets (some t) db h = go (has_token_length t)
    where
      go :
          (b : Bool)
          → Others V (
              if b then set_sessions (revoke_token (secrets.token_digest t) db.sessions) db else db)
      go true = h
      go false = h

  open_session-Keeps :
      (secrets : Secrets) (settings : Settings) (key ip : Text) (previous : Option Text)
      (o : Option User)
      → Keeps (Others V) (open_session env secrets settings key ip previous o)
  open_session-Keeps secrets settings key ip previous none = search keeps_rules depth 20
  open_session-Keeps secrets settings key ip previous (some u) =
      search (keeps_rules, revoke_previous-Others, build_identity-Keeps) depth 30

  pub authenticate_user-Keeps :
      (secrets : Secrets) (settings : Settings) (login password ip : Text) (previous : Option Text)
      → Keeps (Others V) (authenticate_user env secrets settings login password ip previous)
  unfolding authenticate_user authenticate_body
  authenticate_user-Keeps secrets settings login password ip previous =
      search (keeps_rules, raise_result-Keeps, unless_limited-Keeps, open_session-Keeps) depth 40
        fits 4000

  pub logout_user-Keeps :
      (secrets : Secrets) (identity : Identity) (token ip : Text)
      → Keeps (Others V) (logout_user env secrets identity token ip)
  unfolding logout_user
  logout_user-Keeps secrets identity token ip = search keeps_rules depth 40 fits 4000

  put_password-Keeps :
      (secrets : Secrets) (u : User) (h ip : Text) (b : Bool)
      → Keeps (Others V) (put_password env secrets u h ip b)
  put_password-Keeps secrets u h ip false = search keeps_rules
  put_password-Keeps secrets u h ip true = search keeps_rules depth 30

  write_password-Keeps :
      (secrets : Secrets) (identity : Identity) (password key ip : Text) (o : Option User)
      → Keeps (Others V) (write_password env secrets identity password key ip o)
  write_password-Keeps secrets identity password key ip none = search keeps_rules depth 20
  write_password-Keeps secrets identity password key ip (some u) =
      search (keeps_rules, hash_password-Keeps, put_password-Keeps) depth 20

  pub change_user_password-Keeps :
      (secrets : Secrets) (settings : Settings) (identity : Identity)
      (current password confirmation ip : Text)
      → Keeps
          (Others V)
          (change_user_password env secrets settings identity current password confirmation ip)
  unfolding change_user_password change_password_body validate_password
  change_user_password-Keeps secrets settings identity current password confirmation ip =
      search (keeps_rules, raise_result-Keeps, unless_limited-Keeps, write_password-Keeps) depth 40
        fits 4000
