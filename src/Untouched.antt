-- ===== src/Untouched.antt =====
-- What the services of projects and tickets leave alone: the comments and the accounts.
use task_ticket_management_s.Prelude.{ℕ, Bool, true, false, Option, none, some, List, [], ◌∷◌, Text}
use task_ticket_management_s.Codes.{ProjectRole, TicketType, HistoryEventType}
use task_ticket_management_s.Document.{Document}
use task_ticket_management_s.Store.{
  Project, ProjectMember, Ticket, TicketRelation, AuditAction, Field, Comment, User, Organization,
  UserSession, Db,
}
use task_ticket_management_s.Action.{Env, Action, pure, modify}
use task_ticket_management_s.Action.Frame.{Keeps, Keeps-modify, keeps_rules}
use task_ticket_management_s.Projects.Access.{
  ProjectView, is_system_administrator, require_system_administrator, when, require_project_member,
}
use task_ticket_management_s.Projects.Settings.{
  ProjectCreate, ProjectUpdate, favorite_body, set_project_favorite, create_project_body,
  create_project, lock_project_management, write_project_update, update_project_body,
  update_project,
}
use task_ticket_management_s.Projects.Members.{
  add_member_body, add_project_member, require_role_change_allowed, project_member_view,
  change_role, either, update_role_body, update_project_member_role,
  require_member_removal_constraints, remove_member_body, remove_project_member,
}
use task_ticket_management_s.Mentions.{validate_mentions, require_available_document_attachments}
use task_ticket_management_s.Tickets.Queries.{TicketRow}
use task_ticket_management_s.Tickets.Guards.{get_ticket_row}
use task_ticket_management_s.Tickets.Create.{
  TicketCreate, requested_parent, allocate_number, record_creation, create_body, create_ticket,
}
use task_ticket_management_s.Tickets.Update.{
  TicketUpdate, named_parent, parent_for, record_update, write_update, unless_empty, update_body,
  update_ticket,
}
use task_ticket_management_s.Tickets.Transition.{
  TicketTransition, transition_body, transition_ticket, record_transition,
}
use task_ticket_management_s.Tickets.Relations.{
  TicketRelationCreate, record_endpoint, change_endpoints, create_relation_body,
  create_ticket_relation, relation_endpoint_rows, delete_relation_body, delete_ticket_relation,
}
use task_ticket_management_s.Tickets.Trash.{
  record_hierarchy, trash_body, move_ticket_to_trash, restore_body, restore_ticket_trash_batch,
}

abbrev pub Tables : Type 1
Tables = List Comment → List User → List Organization → List UserSession → Type 0

abbrev pub Outside : Tables → Db → Type 0
Outside V db = V db.comments db.users db.organizations db.sessions

-- `when`, and the two choices like it.
pub when-Keeps :
    (P : Db → Type 0) (b : Bool) (m : Action (Unit {0})) → Keeps P m → Keeps P (when b m)
unfolding when pure
when-Keeps P true m k = record { at = k.at }
when-Keeps P false m k = record { at = λ db h. h }

pub either-Keeps :
    {A : Type 0} (P : Db → Type 0) (b : Bool) (m k : Action A)
    → Keeps P m
    → Keeps P k
    → Keeps P (either b m k)
unfolding either
either-Keeps P true m k h i = record { at = h.at }
either-Keeps P false m k h i = record { at = i.at }

unless_empty-Keeps :
    (P : Db → Type 0) (fs : List Field) (row : TicketRow) (m : Action TicketRow)
    → Keeps P m
    → Keeps P (unless_empty fs row m)
unfolding unless_empty pure
unless_empty-Keeps P [] row m h = record { at = λ db k. k }
unless_empty-Keeps P (f ∷ fs) row m h = record { at = h.at }

record_hierarchy-Outside :
    (V : Tables) (env : Env) (actor : ℕ) (kind : HistoryEventType) (action : AuditAction)
    (batch : ℕ) (root : Text) (change : Ticket → Ticket) (before : Db) (ts : List Ticket) (db : Db)
    → Outside V db
    → Outside V (record_hierarchy env actor kind action batch root change before ts db)
unfolding record_hierarchy
record_hierarchy-Outside V env actor kind action batch root change before [] db h = h
record_hierarchy-Outside V env actor kind action batch root change before (t ∷ ts) db h =
    record_hierarchy-Outside V env actor kind action batch root change before ts _ h

module _ (V : Tables) where
  is_system_administrator-Keeps : (actor : ℕ) → Keeps (Outside V) (is_system_administrator actor)
  unfolding is_system_administrator
  is_system_administrator-Keeps actor = search keeps_rules depth 40 fits 4000

  require_system_administrator-Keeps :
      (actor : ℕ) → Keeps (Outside V) (require_system_administrator actor)
  unfolding require_system_administrator
  require_system_administrator-Keeps actor =
      search (keeps_rules, is_system_administrator-Keeps) depth 40 fits 4000

  pub require_project_member-Keeps :
      (m w : Bool) (actor : ℕ) (key : Text)
      → Keeps (Outside V) (require_project_member m w actor key)
  unfolding require_project_member
  require_project_member-Keeps m w actor key =
      search (keeps_rules, is_system_administrator-Keeps, when-Keeps) depth 40 fits 4000

  pub get_ticket_row-Keeps :
      (actor : ℕ) (p : ProjectView) (key : Text) → Keeps (Outside V) (get_ticket_row actor p key)
  unfolding get_ticket_row
  get_ticket_row-Keeps actor p key = search keeps_rules depth 40 fits 4000

  validate_mentions-Keeps :
      (env : Env) (pid : ℕ) (d : Document) → Keeps (Outside V) (validate_mentions env pid d)
  unfolding validate_mentions
  validate_mentions-Keeps env pid d = search keeps_rules depth 40 fits 4000

  require_available_document_attachments-Keeps :
      (pid : ℕ) (tid : Option ℕ) (d : Document)
      → Keeps (Outside V) (require_available_document_attachments pid tid d)
  unfolding require_available_document_attachments
  require_available_document_attachments-Keeps pid tid d = search keeps_rules depth 40 fits 4000

  pub set_project_favorite-Keeps :
      (actor : ℕ) (key : Text) (b : Bool) → Keeps (Outside V) (set_project_favorite actor key b)
  unfolding set_project_favorite favorite_body
  set_project_favorite-Keeps actor key b = search (keeps_rules, when-Keeps) depth 40 fits 4000

  pub create_project-Keeps :
      (env : Env) (actor : ℕ) (payload : ProjectCreate)
      → Keeps (Outside V) (create_project env actor payload)
  unfolding create_project create_project_body
  create_project-Keeps env actor payload =
      search (keeps_rules, require_system_administrator-Keeps) depth 40 fits 4000

  lock_project_management-Keeps : (pid : ℕ) → Keeps (Outside V) (lock_project_management pid)
  unfolding lock_project_management
  lock_project_management-Keeps pid = search keeps_rules depth 40 fits 4000

  write_project_update-Keeps :
      (actor : ℕ) (payload : ProjectUpdate) (p : Project)
      → Keeps (Outside V) (write_project_update actor payload p)
  unfolding write_project_update
  write_project_update-Keeps actor payload p = search (keeps_rules, when-Keeps) depth 40 fits 4000

  pub update_project-Keeps :
      (actor : ℕ) (key : Text) (payload : ProjectUpdate)
      → Keeps (Outside V) (update_project actor key payload)
  unfolding update_project update_project_body
  update_project-Keeps actor key payload =
      search
        (
          keeps_rules, when-Keeps, require_project_member-Keeps, lock_project_management-Keeps,
          write_project_update-Keeps,
        )
        depth 40 fits 4000

  pub add_project_member-Keeps :
      (env : Env) (actor : ℕ) (key : Text) (uid : ℕ) (r : ProjectRole)
      → Keeps (Outside V) (add_project_member env actor key uid r)
  unfolding add_project_member add_member_body
  add_project_member-Keeps env actor key uid r =
      search (keeps_rules, require_project_member-Keeps) depth 40 fits 4000

  project_member_view-Keeps : (pid mid : ℕ) → Keeps (Outside V) (project_member_view pid mid)
  unfolding project_member_view
  project_member_view-Keeps pid mid = search keeps_rules depth 40 fits 4000

  change_role-Keeps :
      (actor : ℕ) (p : ProjectView) (m : ProjectMember) (r : ProjectRole)
      → Keeps (Outside V) (change_role actor p m r)
  unfolding change_role require_role_change_allowed
  change_role-Keeps actor p m r = search (keeps_rules, project_member_view-Keeps) depth 40 fits 4000

  pub update_project_member_role-Keeps :
      (actor : ℕ) (key : Text) (mid : ℕ) (r : ProjectRole)
      → Keeps (Outside V) (update_project_member_role actor key mid r)
  unfolding update_project_member_role update_role_body
  update_project_member_role-Keeps actor key mid r =
      search
        (
          keeps_rules, require_project_member-Keeps, lock_project_management-Keeps,
          project_member_view-Keeps, change_role-Keeps, either-Keeps,
        )
        depth 40 fits 4000

  pub remove_project_member-Keeps :
      (actor : ℕ) (key : Text) (mid : ℕ) → Keeps (Outside V) (remove_project_member actor key mid)
  unfolding remove_project_member remove_member_body require_member_removal_constraints
  remove_project_member-Keeps actor key mid =
      search (keeps_rules, require_project_member-Keeps, lock_project_management-Keeps) depth 40
        fits 4000

  requested_parent-Keeps :
      (actor : ℕ) (p : ProjectView) (key : Option Text)
      → Keeps (Outside V) (requested_parent actor p key)
  unfolding requested_parent
  requested_parent-Keeps actor p none = search keeps_rules
  requested_parent-Keeps actor p (some key) = search keeps_rules depth 20

  allocate_number-Keeps : (pid : ℕ) → Keeps (Outside V) (allocate_number pid)
  unfolding allocate_number
  allocate_number-Keeps pid = search keeps_rules depth 40 fits 4000

  pub create_ticket-Keeps :
      (env : Env) (actor : ℕ) (key : Text) (payload : TicketCreate)
      → Keeps (Outside V) (create_ticket env actor key payload)
  unfolding create_ticket create_body record_creation
  create_ticket-Keeps env actor key payload =
      search
        (
          keeps_rules, require_project_member-Keeps, requested_parent-Keeps,
          validate_mentions-Keeps, require_available_document_attachments-Keeps,
          allocate_number-Keeps,
        )
        depth 40 fits 4000

  named_parent-Keeps :
      (actor : ℕ) (p : ProjectView) (t : Ticket) (key : Text)
      → Keeps (Outside V) (named_parent actor p t key)
  unfolding named_parent
  named_parent-Keeps actor p t key = search keeps_rules depth 40 fits 4000

  parent_for-Keeps :
      (k : TicketType) (actor : ℕ) (p : ProjectView) (t : Ticket) (key : Option Text)
      → Keeps (Outside V) (parent_for k actor p t key)
  unfolding parent_for
  parent_for-Keeps TicketType.epic actor p t none = search keeps_rules
  parent_for-Keeps TicketType.epic actor p t (some key) = search keeps_rules
  parent_for-Keeps TicketType.subtask actor p t none = search keeps_rules
  parent_for-Keeps TicketType.subtask actor p t (some key) = named_parent-Keeps actor p t key
  parent_for-Keeps TicketType.task actor p t none = search keeps_rules
  parent_for-Keeps TicketType.task actor p t (some key) = named_parent-Keeps actor p t key

  write_update-Keeps :
      (env : Env) (actor : ℕ) (p : ProjectView) (row : TicketRow) (payload : TicketUpdate)
      (parent : Option Ticket) (d : Document)
      → Keeps (Outside V) (write_update env actor p row payload parent d)
  unfolding write_update record_update
  write_update-Keeps env actor p row payload parent d =
      search (keeps_rules, get_ticket_row-Keeps) depth 40 fits 4000

  pub update_ticket-Keeps :
      (env : Env) (actor : ℕ) (key t : Text) (payload : TicketUpdate)
      → Keeps (Outside V) (update_ticket env actor key t payload)
  unfolding update_ticket update_body
  update_ticket-Keeps env actor key t payload =
      search
        (
          keeps_rules, require_project_member-Keeps, get_ticket_row-Keeps, parent_for-Keeps,
          validate_mentions-Keeps, require_available_document_attachments-Keeps, unless_empty-Keeps,
          write_update-Keeps,
        )
        depth 40 fits 4000

  pub transition_ticket-Keeps :
      (env : Env) (actor : ℕ) (key t : Text) (payload : TicketTransition)
      → Keeps (Outside V) (transition_ticket env actor key t payload)
  unfolding transition_ticket transition_body record_transition
  transition_ticket-Keeps env actor key t payload =
      search (keeps_rules, require_project_member-Keeps, get_ticket_row-Keeps) depth 40 fits 4000

  change_endpoints-Keeps :
      (env : Env) (actor : ℕ) (action : AuditAction) (r : TicketRelation)
      (source target : TicketRow) (before : Db)
      → Keeps (Outside V) (change_endpoints env actor action r source target before)
  unfolding change_endpoints record_endpoint
  change_endpoints-Keeps env actor action r source target before =
      search keeps_rules depth 40 fits 4000

  relation_endpoint_rows-Keeps :
      (actor : ℕ) (p : ProjectView) (r : TicketRelation)
      → Keeps (Outside V) (relation_endpoint_rows actor p r)
  unfolding relation_endpoint_rows
  relation_endpoint_rows-Keeps actor p r = search keeps_rules depth 40 fits 4000

  pub create_ticket_relation-Keeps :
      (env : Env) (actor : ℕ) (key t : Text) (payload : TicketRelationCreate)
      → Keeps (Outside V) (create_ticket_relation env actor key t payload)
  unfolding create_ticket_relation create_relation_body
  create_ticket_relation-Keeps env actor key t payload =
      search
        (keeps_rules, require_project_member-Keeps, get_ticket_row-Keeps, change_endpoints-Keeps)
        depth 40 fits 4000

  pub delete_ticket_relation-Keeps :
      (env : Env) (actor : ℕ) (key t : Text) (relation expected : ℕ)
      → Keeps (Outside V) (delete_ticket_relation env actor key t relation expected)
  unfolding delete_ticket_relation delete_relation_body
  delete_ticket_relation-Keeps env actor key t relation expected =
      search
        (
          keeps_rules, require_project_member-Keeps, get_ticket_row-Keeps, change_endpoints-Keeps,
          relation_endpoint_rows-Keeps,
        )
        depth 40 fits 4000

  record_hierarchy-Keeps :
      (env : Env) (actor : ℕ) (kind : HistoryEventType) (action : AuditAction) (batch : ℕ)
      (root : Text) (change : Ticket → Ticket) (before : Db) (ts : List Ticket)
      → Keeps
          (Outside V)
          (modify (record_hierarchy env actor kind action batch root change before ts))
  record_hierarchy-Keeps env actor kind action batch root change before ts =
      Keeps-modify _ (record_hierarchy-Outside V env actor kind action batch root change before ts)

  pub move_ticket_to_trash-Keeps :
      (env : Env) (actor : ℕ) (key t : Text) (expected : ℕ)
      → Keeps (Outside V) (move_ticket_to_trash env actor key t expected)
  unfolding move_ticket_to_trash trash_body
  move_ticket_to_trash-Keeps env actor key t expected =
      search
        (keeps_rules, require_project_member-Keeps, get_ticket_row-Keeps, record_hierarchy-Keeps)
        depth 40 fits 4000

  pub restore_ticket_trash_batch-Keeps :
      (env : Env) (actor : ℕ) (key : Text) (batch expected : ℕ)
      → Keeps (Outside V) (restore_ticket_trash_batch env actor key batch expected)
  unfolding restore_ticket_trash_batch restore_body
  restore_ticket_trash_batch-Keeps env actor key batch expected =
      search
        (keeps_rules, require_project_member-Keeps, get_ticket_row-Keeps, record_hierarchy-Keeps)
        depth 40 fits 4000
