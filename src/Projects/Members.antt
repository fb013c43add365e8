-- ===== src/Projects/Members.antt =====
-- app/services/projects.py: the participants of a project.
pub mod Rows
pub mod Removal
pub mod Added
pub mod Replaced
pub mod Keeps
use task_ticket_management_s.Prelude.{
  ℕ, Bool, true, false, Option, none, some, List, [], ◌∷◌, ◌++◌, ◌&&◌, not, ◌==◌, leb, select,
  if◌then◌else◌, Text,
}
use task_ticket_management_s.Codes.{ProjectRole, role_eq}
use task_ticket_management_s.Store.{
  User, ProjectMember, Db, project_member_added, project_member_role_changed,
  project_member_removed, user_id, role, before_role, after_role,
}
use task_ticket_management_s.Action.{
  Env, auth_error, runtime_error, Action, pure, gets, or_raise, raise_if, modify, ◌>>=◌, ◌>>◌,
  transaction, project_inactive, invalid_user, member_conflict, member_not_found,
  project_inactive_role_expansion, inactive_member_role_expansion, last_project_administrator,
  member_has_active_assignments,
}
use task_ticket_management_s.Projects.Queries.{
  find_user, active_user, duplicate_member, project_member, project_administrator_count,
  has_active_ticket_assignments,
}
use task_ticket_management_s.Projects.Access.{
  ProjectView, record_project_audit_event, require_project_administrator,
}
use task_ticket_management_s.Projects.Settings.{
  put_member, set_members, new_member, lock_project_management,
}

-- app/schemas/projects.py: `MemberView`
pub record MemberView : Type 0 where
  pub id : ℕ
  pub user_id : ℕ
  pub login_id : Text
  pub display_name : Text
  pub role : ProjectRole
  pub is_active : Bool

unfoldable pub add_member_body : Env → ℕ → Text → ℕ → ProjectRole → Action ℕ
add_member_body env actor key uid r = do
  project ← require_project_administrator actor key
  raise_if (not project.is_active) (auth_error project_inactive 409)
  before ← gets (λ db. db)
  raise_if (not (active_user before uid)) (auth_error invalid_user 400)
  raise_if (duplicate_member before project.id uid) (auth_error member_conflict 409)
  modify (λ db. set_members (db.members ++ new_member env project.id uid r ∷ []) db)
  record_project_audit_event project_member_added actor project.id (user_id uid ∷ role r ∷ [])
  pure env.new_member_id

unfoldable pub add_project_member : Env → ℕ → Text → ℕ → ProjectRole → Action ℕ
add_project_member env actor key uid r = transaction (add_member_body env actor key uid r)

-- `PROJECT_ROLE_RANK`
unfoldable pub project_role_rank : ProjectRole → ℕ
project_role_rank ProjectRole.guest = 0
project_role_rank ProjectRole.user = 1
project_role_rank ProjectRole.admin = 2

-- `requested_rank > current_rank`
unfoldable pub expands : ProjectRole → ProjectRole → Bool
unfolding project_role_rank
expands current requested = not (leb (project_role_rank requested) (project_role_rank current))

-- The column `user_is_active` of the join.
abbrev pub user_is_active : Option User → Bool
user_is_active none = false
user_is_active (some u) = u.is_active

unfoldable pub require_role_change_allowed :
    ProjectView → ProjectMember → Bool → ProjectRole → Action (Unit {0})
require_role_change_allowed project member is_active requested = do
  raise_if (expands member.role requested && not project.is_active)
      (auth_error project_inactive_role_expansion 409)
  raise_if (expands member.role requested && not is_active)
      (auth_error inactive_member_role_expansion 409)

-- `project_member_view`
abbrev pub to_member_view : ProjectMember → Option User → Option MemberView
to_member_view m none = none
to_member_view m (some u) = some (record {
  id = m.id;
  user_id = u.id;
  login_id = u.login_id;
  display_name = u.display_name;
  role = m.role;
  is_active = u.is_active;
})

abbrev pub view_of : Db → Option ProjectMember → Option MemberView
view_of db none = none
view_of db (some m) = to_member_view m (find_user m.user_id db.users)

unfoldable pub project_member_view : ℕ → ℕ → Action MemberView
project_member_view pid mid = do
  found ← gets (λ db. view_of db (project_member db pid mid))
  or_raise found runtime_error

-- The last administrator keeps the role.
abbrev pub is_last_administrator : Db → ℕ → ProjectMember → Bool
is_last_administrator db pid m =
    role_eq m.role ProjectRole.admin && leb (project_administrator_count db.members pid) 1

unfoldable pub change_role : ℕ → ProjectView → ProjectMember → ProjectRole → Action MemberView
change_role actor project member requested = do
  before ← gets (λ db. db)
  require_role_change_allowed project member
      (user_is_active (find_user member.user_id before.users)) requested
  raise_if
      (not (role_eq requested ProjectRole.admin) && is_last_administrator before project.id member)
      (auth_error last_project_administrator 409)
  raise_if
      (role_eq requested ProjectRole.guest
        && has_active_ticket_assignments before.tickets project.id member.user_id)
      (auth_error member_has_active_assignments 409)
  modify (λ db. set_members (put_member (record member { role = requested }) db.members) db)
  record_project_audit_event project_member_role_changed actor project.id
      (user_id member.user_id ∷ before_role member.role ∷ after_role requested ∷ [])
  project_member_view project.id member.id

unfoldable pub either : {A : Type 0} → Bool → Action A → Action A → Action A
either b m k db = if b then m db else k db

unfoldable pub update_role_body : ℕ → Text → ℕ → ProjectRole → Action MemberView
update_role_body actor key member_id requested = do
  project ← require_project_administrator actor key
  lock_project_management project.id
  found ← gets (λ db. project_member db project.id member_id)
  member ← or_raise found (auth_error member_not_found 404)
  either (role_eq member.role requested) (project_member_view project.id member.id)
      (change_role actor project member requested)

unfoldable pub update_project_member_role : ℕ → Text → ℕ → ProjectRole → Action MemberView
update_project_member_role actor key member_id requested =
    transaction (update_role_body actor key member_id requested)

unfoldable pub require_member_removal_constraints : ℕ → ProjectMember → Action (Unit {0})
require_member_removal_constraints pid member = do
  before ← gets (λ db. db)
  raise_if (is_last_administrator before pid member) (auth_error last_project_administrator 409)
  raise_if (has_active_ticket_assignments before.tickets pid member.user_id)
      (auth_error member_has_active_assignments 409)

-- `session.delete(member)`
abbrev pub without_member : ℕ → List ProjectMember → List ProjectMember
without_member i ms = select (λ m. not (m.id == i)) ms

unfoldable pub remove_member_body : ℕ → Text → ℕ → Action ℕ
remove_member_body actor key member_id = do
  project ← require_project_administrator actor key
  lock_project_management project.id
  found ← gets (λ db. project_member db project.id member_id)
  member ← or_raise found (auth_error member_not_found 404)
  require_member_removal_constraints project.id member
  modify (λ db. set_members (without_member member.id db.members) db)
  record_project_audit_event project_member_removed actor project.id
      (user_id member.user_id ∷ role member.role ∷ [])
  pure member.user_id

unfoldable pub remove_project_member : ℕ → Text → ℕ → Action ℕ
remove_project_member actor key member_id = transaction (remove_member_body actor key member_id)
