-- ===== src/Projects/Settings.antt =====
-- app/services/projects.py: a project's creation, its settings, and an actor's favorite mark.
pub mod Keeps
use task_ticket_management_s.Prelude.{
  ℕ, Bool, true, false, Option, none, some, List, [], ◌∷◌, ◌++◌, ◌&&◌, ◌||◌, not, ◌==◌, map,
  option_or, list_if, if◌then◌else◌, Text, text_eq,
}
use task_ticket_management_s.Codes.{ProjectRole}
use task_ticket_management_s.Store.{
  Project, ProjectMember, ProjectField, AuditAction, Detail, Db, name_field, description_field,
  is_active_field, project_created, project_updated, project_reactivated, project_deactivated,
  project_member_added, project_key, user_id, role, changed_project_fields, before_is_active,
  after_is_active,
}
use task_ticket_management_s.Action.{
  Env, auth_error, runtime_error, Action, pure, gets, or_raise, raise_if, modify, ◌>>=◌, ◌>>◌,
  transaction, project_not_found, invalid_user, project_conflict,
}
use task_ticket_management_s.Projects.Queries.{
  find_project, active_user, duplicate_key, lock_project_membership,
}
use task_ticket_management_s.Projects.Access.{
  ProjectView, record_project_audit_event, require_system_administrator,
  require_project_administrator, build_project_view, when,
}

-- app/schemas/projects.py: `ProjectCreate` and `ProjectUpdate`, as their validators leave them. A
-- field of an update is there if the request sets it (`model_fields_set`).
pub record ProjectCreate : Type 0 where
  pub key : Text
  pub name : Text
  pub description : Text
  pub administrator_id : ℕ

pub record ProjectUpdate : Type 0 where
  pub name : Option Text
  pub description : Option Text
  pub is_active : Option Bool

abbrev pub put_member : ProjectMember → List ProjectMember → List ProjectMember
put_member c ms = map (λ m. if m.id == c.id then c else m) ms

abbrev pub put_project : Project → List Project → List Project
put_project c ps = map (λ p. if p.id == c.id then c else p) ps

abbrev pub set_members : List ProjectMember → Db → Db
set_members ms db = record db { members = ms }

abbrev pub bool_eq : Bool → Bool → Bool
bool_eq true b = b
bool_eq false b = not b

unfoldable pub favorite_body : ℕ → Text → Bool → Action Bool
unfolding when
favorite_body actor key is_favorite = do
  found ← gets (λ db. lock_project_membership db key actor)
  membership ← or_raise found (auth_error project_not_found 404)
  let changed = record membership { is_favorite = is_favorite }
  when (not (bool_eq membership.is_favorite is_favorite))
      (modify (λ db. set_members (put_member changed db.members) db))
  pure is_favorite

unfoldable pub set_project_favorite : ℕ → Text → Bool → Action Bool
set_project_favorite actor key is_favorite = transaction (favorite_body actor key is_favorite)

-- `Project(…)`, with the defaults of the columns that it does not give.
abbrev pub new_project : Env → ℕ → ProjectCreate → Project
new_project env actor payload = record {
  id = env.new_id;
  key = payload.key;
  name = payload.name;
  description = payload.description;
  is_active = true;
  created_by_id = actor;
  next_ticket_number = 1;
}

abbrev pub new_member : Env → ℕ → ℕ → ProjectRole → ProjectMember
new_member env pid uid r = record {
  id = env.new_member_id;
  project_id = pid;
  user_id = uid;
  role = r;
  is_favorite = false;
}

unfoldable pub create_project_body : Env → ℕ → ProjectCreate → Action ℕ
create_project_body env actor payload = do
  require_system_administrator actor
  before ← gets (λ db. db)
  raise_if (not (active_user before payload.administrator_id)) (auth_error invalid_user 400)
  raise_if (duplicate_key before payload.key) (auth_error project_conflict 409)
  modify (λ db. record db { projects = db.projects ++ new_project env actor payload ∷ [] })
  modify (λ db.
      set_members
        (db.members ++ new_member env env.new_id payload.administrator_id ProjectRole.admin ∷ [])
        db)
  record_project_audit_event project_created actor env.new_id (project_key payload.key ∷ [])
  record_project_audit_event project_member_added actor env.new_id
      (user_id payload.administrator_id ∷ role ProjectRole.admin ∷ [])
  pure env.new_id

unfoldable pub create_project : Env → ℕ → ProjectCreate → Action ℕ
create_project env actor payload = transaction (create_project_body env actor payload)

-- `lock_project_management`, whose `scalar_one` raises if the row is gone.
unfoldable pub lock_project_management : ℕ → Action Project
lock_project_management pid = do
  found ← gets (λ db. find_project pid db.projects)
  or_raise found runtime_error

-- `setattr(project_row, field_name, desired_values[field_name])` for the fields that are given.
abbrev pub apply_project_update : ProjectUpdate → Project → Project
apply_project_update payload p = record p {
  name = option_or payload.name p.name;
  description = option_or payload.description p.description;
  is_active = option_or payload.is_active p.is_active;
}

-- The changed fields of the profile, and whether the project's activity changes.
abbrev pub profile_fields : ProjectUpdate → Project → List ProjectField
profile_fields payload p =
    list_if (not (text_eq (option_or payload.name p.name) p.name)) name_field
    ++ list_if (not (text_eq (option_or payload.description p.description) p.description))
        description_field

abbrev pub changes_activity : ProjectUpdate → Project → Bool
changes_activity payload p = not (bool_eq (option_or payload.is_active p.is_active) p.is_active)

abbrev pub has_fields : List ProjectField → Bool
has_fields [] = false
has_fields (_ ∷ _) = true

abbrev pub activity_action : Bool → AuditAction
activity_action b = if b then project_reactivated else project_deactivated

unfoldable pub write_project_update : ℕ → ProjectUpdate → Project → Action (Unit {0})
write_project_update actor payload p = do
  modify (λ db. record db { projects = put_project (apply_project_update payload p) db.projects })
  when (has_fields (profile_fields payload p)) (
      record_project_audit_event project_updated actor p.id
        (changed_project_fields (profile_fields payload p) ∷ []))
  when (changes_activity payload p) (
      record_project_audit_event (activity_action (option_or payload.is_active p.is_active)) actor
        p.id
        (before_is_active p.is_active
          ∷ after_is_active (option_or payload.is_active p.is_active)
          ∷ []))

unfoldable pub update_project_body : ℕ → Text → ProjectUpdate → Action ProjectView
update_project_body actor key payload = do
  access ← require_project_administrator actor key
  p ← lock_project_management access.id
  when (has_fields (profile_fields payload p) || changes_activity payload p)
      (write_project_update actor payload p)
  pure (
      build_project_view (apply_project_update payload p) access.role access.can_manage
        access.is_favorite)

unfoldable pub update_project : ℕ → Text → ProjectUpdate → Action ProjectView
update_project actor key payload = transaction (update_project_body actor key payload)
