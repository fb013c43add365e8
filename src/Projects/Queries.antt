-- ===== src/Projects/Queries.antt =====
-- app/repositories/projects.py: the queries of the project services, over the tables.
use task_ticket_management_s.Prelude.{
  ℕ, Bool, false, Option, none, some, List, ◌&&◌, ◌||◌, not, ◌==◌, is_some, is_none, find_first,
  any, count_where, option_eq, Text, text_eq,
}
use task_ticket_management_s.Codes.{ProjectRole, TicketStatus, role_eq, status_eq}
use task_ticket_management_s.Store.{User, Project, ProjectMember, Ticket, Db}

-- `get_actor_status`, and the row that a join on a user's id finds.
abbrev pub find_user : ℕ → List User → Option User
find_user i us = find_first (λ u. u.id == i) us

abbrev pub find_project : ℕ → List Project → Option Project
find_project i ps = find_first (λ p. p.id == i) ps

abbrev pub is_membership : ℕ → ℕ → ProjectMember → Bool
is_membership pid uid m = (m.project_id == pid) && (m.user_id == uid)

abbrev pub find_membership : ℕ → ℕ → List ProjectMember → Option ProjectMember
find_membership pid uid ms = find_first (is_membership pid uid) ms

abbrev pub membership_role : Option ProjectMember → Option ProjectRole
membership_role none = none
membership_role (some m) = some m.role

abbrev pub membership_favorite : Option ProjectMember → Bool
membership_favorite none = false
membership_favorite (some m) = m.is_favorite

-- `accessible_project`: the row of `build_project_access_query`, an outer join with the actor's
-- membership, which is required unless the actor overrides.
abbrev pub ProjectAccess : Type 0
ProjectAccess = record { project : Project; role : Option ProjectRole; is_favorite : Bool }

abbrev pub access_row : List ProjectMember → ℕ → Project → ProjectAccess
access_row ms actor p = record {
  project = p;
  role = membership_role (find_membership p.id actor ms);
  is_favorite = membership_favorite (find_membership p.id actor ms);
}

abbrev pub to_access : List ProjectMember → ℕ → Option Project → Option ProjectAccess
to_access ms actor none = none
to_access ms actor (some p) = some (access_row ms actor p)

abbrev pub accessible_project : Db → Text → ℕ → Bool → Option ProjectAccess
accessible_project db key actor override = to_access db.members actor (
    find_first
      (λ p. text_eq p.key key && (override || is_some (find_membership p.id actor db.members)))
      db.projects)

abbrev pub active_user : Db → ℕ → Bool
active_user db uid = any (λ u. (u.id == uid) && u.is_active) db.users

abbrev pub duplicate_key : Db → Text → Bool
duplicate_key db key = any (λ p. text_eq p.key key) db.projects

abbrev pub duplicate_member : Db → ℕ → ℕ → Bool
duplicate_member db pid uid = any (is_membership pid uid) db.members

-- `lock_project_membership`: a join of the membership with its project's key.
abbrev pub lock_project_membership : Db → Text → ℕ → Option ProjectMember
lock_project_membership db key uid =
    find_first
      (λ m.
        any (λ p. (p.id == m.project_id) && text_eq p.key key) db.projects && (m.user_id == uid))
      db.members

-- `project_member`: the inner join with the member's user.
abbrev pub project_member : Db → ℕ → ℕ → Option ProjectMember
project_member db pid mid =
    find_first
      (λ m. (m.project_id == pid) && (m.id == mid) && is_some (find_user m.user_id db.users))
      db.members

abbrev pub is_admin_of : ℕ → ProjectMember → Bool
is_admin_of pid m = (m.project_id == pid) && role_eq m.role ProjectRole.admin

abbrev pub project_administrator_count : List ProjectMember → ℕ → ℕ
project_administrator_count ms pid = count_where (is_admin_of pid) ms

abbrev pub is_terminal : TicketStatus → Bool
is_terminal s = status_eq s TicketStatus.done || status_eq s TicketStatus.cancelled

-- A ticket outside the trash that is neither done nor cancelled.
abbrev pub is_open : Ticket → Bool
is_open t = is_none t.deleted_at && not (is_terminal t.status)

abbrev pub has_active_ticket_assignments : List Ticket → ℕ → ℕ → Bool
has_active_ticket_assignments ts pid uid =
    any (λ t. (t.project_id == pid) && option_eq t.assignee_id (some uid) && is_open t) ts
