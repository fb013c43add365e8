-- ===== src/Projects/Access.antt =====
-- app/services/projects.py: who may read, write and manage a project.
pub mod Rules
pub mod Decides
use task_ticket_management_s.Prelude.{
  ℕ, Bool, true, false, Option, none, some, List, [], ◌∷◌, ◌++◌, ◌&&◌, ◌||◌, not, is_none,
  if◌then◌else◌, Text,
}
use task_ticket_management_s.Codes.{ProjectRole, role_eq}
use task_ticket_management_s.Store.{
  SystemRole, Project, AuditAction, AuditLog, Detail, Permission, Db, project_override_access,
  project_target, permission,
}
use task_ticket_management_s.Action.{
  auth_error, Action, pure, gets, or_raise, raise_if, modify, ◌>>=◌, ◌>>◌, authentication_required,
  password_change_required, admin_required, project_not_found, project_admin_required,
  project_write_required,
}
use task_ticket_management_s.Projects.Queries.{find_user, accessible_project}

-- app/schemas/projects.py: `ProjectView`
pub record ProjectView : Type 0 where
  pub id : ℕ
  pub key : Text
  pub name : Text
  pub description : Text
  pub is_active : Bool
  pub role : Option ProjectRole
  pub can_manage : Bool
  pub is_favorite : Bool

abbrev pub add_audit : AuditLog → Db → Db
add_audit a db = record db { audits = db.audits ++ a ∷ [] }

abbrev pub record_project_audit_event : AuditAction → ℕ → ℕ → List Detail → Action (Unit {0})
record_project_audit_event action actor pid details = modify (
    add_audit (record {
      action = action;
      actor_user_id = actor;
      target = project_target pid;
      details = details;
    }))

abbrev pub is_system_admin_role : SystemRole → Bool
is_system_admin_role SystemRole.system_admin = true
is_system_admin_role SystemRole.plain_user = false

unfoldable pub is_system_administrator : ℕ → Action Bool
is_system_administrator actor = do
  found ← gets (λ db. find_user actor db.users)
  status ← or_raise found (auth_error authentication_required 401)
  raise_if (not status.is_active) (auth_error authentication_required 401)
  raise_if status.must_change_password (auth_error password_change_required 403)
  pure (is_system_admin_role status.system_role)

unfoldable pub require_system_administrator : ℕ → Action (Unit {0})
require_system_administrator actor = do
  administrator ← is_system_administrator actor
  raise_if (not administrator) (auth_error admin_required 403)

-- `project_role in {…}`, where no membership is `None`.
abbrev pub is_project_admin : Option ProjectRole → Bool
is_project_admin none = false
is_project_admin (some r) = role_eq r ProjectRole.admin

abbrev pub is_project_writer : Option ProjectRole → Bool
is_project_writer none = false
is_project_writer (some r) = role_eq r ProjectRole.admin || role_eq r ProjectRole.user

abbrev pub build_project_view : Project → Option ProjectRole → Bool → Bool → ProjectView
build_project_view p role administrator favorite = record {
  id = p.id;
  key = p.key;
  name = p.name;
  description = p.description;
  is_active = p.is_active;
  role = role;
  can_manage = administrator || is_project_admin role;
  is_favorite = favorite;
}

-- The permission that an override is recorded for.
abbrev pub override_permission : Bool → Bool → Permission
override_permission management writing =
    if management then Permission.manage else if writing then Permission.write else Permission.read

-- Whether the access rests on the system administrator's override.
abbrev pub uses_override : Bool → Bool → Bool → Option ProjectRole → Bool
uses_override administrator management writing role =
    administrator
    && (is_none role
        || (management && not (is_project_admin role))
        || (writing && not (is_project_writer role)))

unfoldable pub when : Bool → Action (Unit {0}) → Action (Unit {0})
when b m db = if b then m db else pure tt db

unfoldable pub require_project_member : Bool → Bool → ℕ → Text → Action ProjectView
require_project_member management writing actor project_key = do
  administrator ← is_system_administrator actor
  found ← gets (λ db. accessible_project db project_key actor administrator)
  access ← or_raise found (auth_error project_not_found 404)
  raise_if (management && not administrator && not (is_project_admin access.role))
      (auth_error project_admin_required 403)
  raise_if (writing && not administrator && not (is_project_writer access.role))
      (auth_error project_write_required 403)
  when (uses_override administrator management writing access.role) (
      record_project_audit_event project_override_access actor access.project.id
        (permission (override_permission management writing) ∷ []))
  pure (build_project_view access.project access.role administrator access.is_favorite)

abbrev pub require_project_administrator : ℕ → Text → Action ProjectView
require_project_administrator = require_project_member true false

abbrev pub require_project_user_access : ℕ → Text → Action ProjectView
require_project_user_access = require_project_member false true

-- `uses_system_administrator_override` of app/services/tickets.py and app/services/comments.py
abbrev pub uses_system_administrator_override : ProjectView → Bool
uses_system_administrator_override p = is_none p.role && p.can_manage
