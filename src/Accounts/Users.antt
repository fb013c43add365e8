-- ===== src/Accounts/Users.antt =====
-- app/services/administration.py: the users. The unique indexes are met beforehand by the checks for
-- duplicates, in the same transaction. Time stamps of the rows are left out.
use task_ticket_management_s.Prelude.{
  ℕ, Bool, true, false, Option, none, some, List, [], ◌∷◌, ◌++◌, map, ◌&&◌, ◌||◌, not, ◌==◌, leb,
  list_if, if◌then◌else◌, Text, text_eq,
}
use task_ticket_management_s.Document.{has_items}
use task_ticket_management_s.Store.{
  SystemRole, User, SecurityAction, AccountField, Db, user_row, user_created, user_updated,
  user_deactivated, user_reactivated, user_password_reset, display_name_changed, email_changed,
  organization_changed, system_role_changed, activity_changed,
}
use task_ticket_management_s.Action.{
  Env, auth_error, Action, pure, gets, or_raise, raise_if, modify, ◌>>=◌, ◌>>◌, transaction,
  user_conflict, user_not_found, last_active_administrator, invalid_login_id,
}
use task_ticket_management_s.Projects.Access.{is_system_admin_role, when}
use task_ticket_management_s.Projects.Settings.{bool_eq}
use task_ticket_management_s.Tickets.Snapshots.{option_text_eq}
use task_ticket_management_s.Accounts.Passwords.{Secrets, normalized_login_id, hash_password}
use task_ticket_management_s.Accounts.Queries.{
  ManagedUser, get_user_with_organization, active_system_administrator_count, duplicate_user,
  set_users, set_sessions, revoke_user_sessions, record_audit_event,
}
use task_ticket_management_s.Accounts.Organizations.{require_administrator, get_active_organization}

pub record UserView : Type 0 where
  pub id : ℕ
  pub login_id : Text
  pub display_name : Text
  pub email : Option Text
  pub organization_id : ℕ
  pub organization_name : Text
  pub system_role : SystemRole
  pub is_active : Bool
  pub must_change_password : Bool
  pub deactivated_at : Option ℕ

abbrev pub user_view : User → Text → UserView
user_view u name = record {
  id = u.id;
  login_id = u.login_id;
  display_name = u.display_name;
  email = u.email;
  organization_id = u.organization_id;
  organization_name = name;
  system_role = u.system_role;
  is_active = u.is_active;
  must_change_password = u.must_change_password;
  deactivated_at = u.deactivated_at;
}

-- app/schemas/administration.py: `UserCreate` and `UserUpdate`, as their validators leave them.
pub record UserCreate : Type 0 where
  pub login_id : Text
  pub display_name : Text
  pub email : Option Text
  pub organization_id : ℕ
  pub system_role : SystemRole
  pub password : Text

pub record UserUpdate : Type 0 where
  pub display_name : Text
  pub email : Option Text
  pub organization_id : ℕ
  pub system_role : SystemRole
  pub is_active : Bool

-- `record_audit_event` of a user.
abbrev pub user_event :
    Env → Option ℕ → Option Text → SecurityAction → ℕ → List AccountField → Db → Db
user_event env actor ip action uid fields = record_audit_event (record {
  action = action;
  actor_user_id = actor;
  target = some (user_row uid);
  ip_address = ip;
  occurred_at = env.now;
  changed_fields = fields;
})

-- `User(…)`, with the columns that it does not give.
unfoldable pub new_user : Env → Text → UserCreate → Text → User
new_user env login payload password_hash = record {
  id = env.new_id;
  login_id = login;
  display_name = payload.display_name;
  system_role = payload.system_role;
  is_active = true;
  must_change_password = true;
  email = payload.email;
  password_hash = password_hash;
  organization_id = payload.organization_id;
  deactivated_at = none;
  deactivated_by_id = none;
}

unfoldable pub create_user_body : Env → Secrets → ℕ → UserCreate → Text → Action ℕ
unfolding normalized_login_id
create_user_body env secrets actor payload ip = do
  require_administrator actor
  login ← or_raise (normalized_login_id secrets payload.login_id) (auth_error invalid_login_id 400)
  get_active_organization actor payload.organization_id
  before ← gets (λ db. db)
  raise_if (duplicate_user before login payload.email none) (auth_error user_conflict 409)
  password_hash ← hash_password secrets payload.password
  modify (λ db. set_users (db.users ++ new_user env login payload password_hash ∷ []) db)
  modify (user_event env (some actor) (some ip) user_created env.new_id [])
  pure env.new_id

unfoldable pub create_user : Env → Secrets → ℕ → UserCreate → Text → Action ℕ
create_user env secrets actor payload ip =
    transaction (create_user_body env secrets actor payload ip)

-- `_managed_user`
unfoldable pub managed_user : ℕ → Action ManagedUser
managed_user uid = do
  found ← gets (λ db. get_user_with_organization db uid)
  or_raise found (auth_error user_not_found 404)

-- `_protect_last_active_administrator`
unfoldable pub removes_active_administrator : User → UserUpdate → Bool
removes_active_administrator u payload =
    u.is_active
    && is_system_admin_role u.system_role
    && (not payload.is_active || not (is_system_admin_role payload.system_role))

unfoldable pub protect_last_active_administrator : User → UserUpdate → Action (Unit {0})
unfolding removes_active_administrator
protect_last_active_administrator u payload = do
  before ← gets (λ db. db)
  raise_if
      (removes_active_administrator u payload
        && leb (active_system_administrator_count before.users) 1)
      (auth_error last_active_administrator 409)

abbrev pub system_role_eq : SystemRole → SystemRole → Bool
system_role_eq r s = bool_eq (is_system_admin_role r) (is_system_admin_role s)

unfoldable pub user_changes : User → UserUpdate → List AccountField
user_changes u payload =
    list_if (not (text_eq u.display_name payload.display_name)) display_name_changed
    ++ (list_if (not (option_text_eq u.email payload.email)) email_changed
        ++ (list_if (not (u.organization_id == payload.organization_id)) organization_changed
            ++ (list_if (not (system_role_eq u.system_role payload.system_role)) system_role_changed
                ++ list_if (not (bool_eq u.is_active payload.is_active)) activity_changed)))

-- The three branches of a change of `is_active`.
pub data ActivityChange : Type 0 where
  deactivates reactivates keeps_activity : ActivityChange

abbrev pub activity_change : Bool → Bool → ActivityChange
activity_change true false = deactivates
activity_change false true = reactivates
activity_change true true = keeps_activity
activity_change false false = keeps_activity

abbrev pub put_activity : Env → ℕ → ActivityChange → User → User
put_activity env actor deactivates u = record u {
  deactivated_at = some env.now;
  deactivated_by_id = some actor;
}
put_activity env actor reactivates u = record u { deactivated_at = none; deactivated_by_id = none }
put_activity env actor keeps_activity u = u

abbrev pub user_activity_action : ActivityChange → SecurityAction
user_activity_action deactivates = user_deactivated
user_activity_action reactivates = user_reactivated
user_activity_action keeps_activity = user_updated

-- The assignments to the user's columns.
unfoldable pub apply_user_update : Env → ℕ → UserUpdate → User → User
apply_user_update env actor payload u =
    put_activity env actor (activity_change u.is_active payload.is_active) (record u {
      display_name = payload.display_name;
      email = payload.email;
      organization_id = payload.organization_id;
      system_role = payload.system_role;
      is_active = payload.is_active;
    })

abbrev pub put_user : User → List User → List User
put_user c us = map (λ u. if u.id == c.id then c else u) us

abbrev pub revoke_if : ActivityChange → ℕ → Db → Db
revoke_if deactivates uid db = set_sessions (revoke_user_sessions uid db.sessions) db
revoke_if reactivates uid db = db
revoke_if keeps_activity uid db = db

unfoldable pub write_user : Env → ℕ → Text → User → UserUpdate → Action (Unit {0})
unfolding apply_user_update user_changes
write_user env actor ip u payload = do
  modify (revoke_if (activity_change u.is_active payload.is_active) u.id)
  modify (λ db. set_users (put_user (apply_user_update env actor payload u) db.users) db)
  modify (
      user_event env (some actor) (some ip)
        (user_activity_action (activity_change u.is_active payload.is_active)) u.id
        (user_changes u payload))

unfoldable pub update_user_body : Env → ℕ → ℕ → UserUpdate → Text → Action UserView
update_user_body env actor uid payload ip = do
  require_administrator actor
  managed ← managed_user uid
  organization ← get_active_organization actor payload.organization_id
  before ← gets (λ db. db)
  raise_if (duplicate_user before managed.user.login_id payload.email (some managed.user.id))
      (auth_error user_conflict 409)
  protect_last_active_administrator managed.user payload
  when (has_items (user_changes managed.user payload))
      (write_user env actor ip managed.user payload)
  pure (
      if has_items (user_changes managed.user payload)
      then user_view (apply_user_update env actor payload managed.user) organization.name
      else user_view managed.user managed.organization_name)

unfoldable pub update_user : Env → ℕ → ℕ → UserUpdate → Text → Action UserView
update_user env actor uid payload ip = transaction (update_user_body env actor uid payload ip)

-- The assignments of `reset_user_password`.
abbrev pub reset_password : Text → User → User
reset_password password_hash u = record u {
  password_hash = password_hash;
  must_change_password = true;
}

unfoldable pub reset_password_body : Env → Secrets → ℕ → ℕ → Text → Text → Action UserView
reset_password_body env secrets actor uid password ip = do
  require_administrator actor
  managed ← managed_user uid
  password_hash ← hash_password secrets password
  modify (λ db. set_sessions (revoke_user_sessions managed.user.id db.sessions) db)
  modify (λ db. set_users (put_user (reset_password password_hash managed.user) db.users) db)
  modify (user_event env (some actor) (some ip) user_password_reset managed.user.id [])
  pure (user_view (reset_password password_hash managed.user) managed.organization_name)

unfoldable pub reset_user_password : Env → Secrets → ℕ → ℕ → Text → Text → Action UserView
reset_user_password env secrets actor uid password ip =
    transaction (reset_password_body env secrets actor uid password ip)
