-- ===== src/Tickets/Create.antt =====
-- app/services/tickets.py: `create_ticket`, with `allocate_number` of app/repositories/tickets.py.
pub mod Keeps
use task_ticket_management_s.Prelude.{
  ℕ, ◌+◌, Bool, false, Option, none, some, List, [], ◌∷◌, ◌++◌, ◌&&◌, not, ◌==◌, is_some, is_none,
  map, if◌then◌else◌, Text, show,
}
use task_ticket_management_s.Codes.{TicketType, TicketStatus, Priority, HistoryEventType, type_eq}
use task_ticket_management_s.Document.{Document, document_schema_version}
use task_ticket_management_s.Store.{
  Project, Ticket, TicketHistory, CustomField, Field, Db, ticket_created,
}
use task_ticket_management_s.Action.{
  Env, auth_error, runtime_error, Action, pure, gets, or_raise, raise_if, modify, ◌>>=◌, ◌>>◌,
  transaction, project_inactive, invalid_parent, invalid_assignee,
}
use task_ticket_management_s.Projects.Queries.{find_project}
use task_ticket_management_s.Projects.Access.{
  ProjectView, require_project_user_access, uses_system_administrator_override,
}
use task_ticket_management_s.Mentions.{
  validate_mentions, require_available_document_attachments, synchronize_mentions,
}
use task_ticket_management_s.Tickets.Queries.{
  TicketRow, key_of, parent_ticket, assignee_is_active_member, ticket_row,
}
use task_ticket_management_s.Tickets.Snapshots.{add_history, ticket_audit, set_tickets}

-- app/schemas/tickets.py: `TicketCreate`, as its field validators leave it.
pub record TicketCreate : Type 0 where
  pub labels : List Text
  pub custom_fields : List CustomField
  pub type : TicketType
  pub title : Text
  pub description_document : Document
  pub priority : Priority
  pub parent_key : Option Text
  pub assignee_id : Option ℕ
  pub due_date : Option ℕ

-- The validator `validate_parent_shape`: whether it accepts the payload.
unfoldable pub validate_parent_shape : TicketCreate → Bool
validate_parent_shape payload =
    not (type_eq payload.type TicketType.epic && is_some payload.parent_key)
    && not (type_eq payload.type TicketType.subtask && is_none payload.parent_key)

-- The parent that the payload names, if it names one.
unfoldable pub requested_parent : ℕ → ProjectView → Option Text → Action (Option Ticket)
requested_parent actor project none = pure none
requested_parent actor project (some key) = do
  found ←
      gets
        (λ db. parent_ticket db project.id actor key (uses_system_administrator_override project))
  parent ← or_raise found (auth_error invalid_parent 400)
  pure (some parent)

abbrev pub parent_has_type : TicketType → Option Ticket → Bool
parent_has_type k none = false
parent_has_type k (some p) = type_eq p.type k

abbrev pub is_bad_assignee : Db → ℕ → Option ℕ → Bool
is_bad_assignee db pid none = false
is_bad_assignee db pid (some uid) = not (assignee_is_active_member db pid uid)

abbrev pub parent_id_of : Option Ticket → Option ℕ
parent_id_of none = none
parent_id_of (some p) = some p.id

-- `UPDATE projects SET next_ticket_number = next_ticket_number + 1 … RETURNING`
abbrev pub count_up : ℕ → List Project → List Project
count_up pid ps =
    map (λ p. if p.id == pid then record p { next_ticket_number = p.next_ticket_number + 1 } else p)
      ps

unfoldable pub allocate_number : ℕ → Action ℕ
allocate_number pid = do
  found ← gets (λ db. find_project pid db.projects)
  project ← or_raise found runtime_error
  modify (λ db. record db { projects = count_up pid db.projects })
  pure project.next_ticket_number

-- `Ticket(…)`, with the defaults of the columns that it does not give.
unfoldable pub new_ticket :
    Env → ℕ → ProjectView → TicketCreate → Option Ticket → Document → ℕ → Ticket
unfolding show document_schema_version
new_ticket env actor project payload parent document number = record {
  id = env.new_id;
  project_id = project.id;
  number = number;
  key = project.key ++ (b'-' ∷ show number);
  type = payload.type;
  title = payload.title;
  labels = payload.labels;
  custom_fields = payload.custom_fields;
  description_document = document;
  body_schema_version = document_schema_version document;
  status = TicketStatus.todo;
  priority = payload.priority;
  parent_id = parent_id_of parent;
  creator_id = actor;
  assignee_id = payload.assignee_id;
  due_date = payload.due_date;
  actual_started_at = none;
  completed_at = none;
  cancelled_at = none;
  version = 1;
  created_at = env.now;
  updated_at = env.now;
  deleted_at = none;
  deletion_batch_id = none;
}

-- `_build_ticket_creation_history`: a new ticket has no relations yet.
unfoldable pub build_ticket_creation_history : Env → ℕ → Ticket → Option Text → TicketHistory
build_ticket_creation_history env actor t parent_key = record {
  project_id = t.project_id;
  ticket_id = t.id;
  operation_id = env.operation_id;
  ticket_version = t.version;
  event_type = HistoryEventType.created;
  actor_id = actor;
  occurred_at = t.created_at;
  before_state = none;
  after_state = record { ticket = t; parent_key = parent_key; relations = [] };
  changes = Field.whole_ticket ∷ [];
}

-- The rows that go with the new one: mentions, history and audit event.
unfoldable pub record_creation : Env → ℕ → Ticket → Option Text → Db → Db
unfolding build_ticket_creation_history synchronize_mentions
record_creation env actor t parent_key db = ticket_audit ticket_created actor t [] (
    add_history (build_ticket_creation_history env actor t parent_key) (record db {
      mentions = synchronize_mentions env.now actor t t.description_document none db.mentions;
    }))

unfoldable pub create_body : Env → ℕ → Text → TicketCreate → Action TicketRow
create_body env actor project_key payload = do
  project ← require_project_user_access actor project_key
  raise_if (not project.is_active) (auth_error project_inactive 409)
  parent ← requested_parent actor project payload.parent_key
  raise_if
      (type_eq payload.type TicketType.task
        && is_some parent
        && not (parent_has_type TicketType.epic parent))
      (auth_error invalid_parent 400)
  raise_if (type_eq payload.type TicketType.subtask && not (parent_has_type TicketType.task parent))
      (auth_error invalid_parent 400)
  before ← gets (λ db. db)
  raise_if (is_bad_assignee before project.id payload.assignee_id) (auth_error invalid_assignee 400)
  document ← validate_mentions env project.id payload.description_document
  require_available_document_attachments project.id none document
  number ← allocate_number project.id
  let ticket = new_ticket env actor project payload parent document number
  modify (λ db. set_tickets (db.tickets ++ ticket ∷ []) db)
  modify (record_creation env actor ticket (key_of parent))
  found ←
      gets (λ db.
        ticket_row db project.id actor ticket.key (uses_system_administrator_override project))
  or_raise found runtime_error

unfoldable pub create_ticket : Env → ℕ → Text → TicketCreate → Action TicketRow
create_ticket env actor project_key payload =
    transaction (create_body env actor project_key payload)
