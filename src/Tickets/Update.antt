-- ===== src/Tickets/Update.antt =====
-- app/services/tickets.py: `update_ticket` and `_parent_for_update`, with the loop
-- `parent_would_cycle` of app/repositories/tickets.py.
pub mod Cycles
pub mod Keeps
use task_ticket_management_s.Prelude.{
  ℕ, zero, suc, ◌+◌, Bool, true, false, Option, none, some, List, [], ◌∷◌, ◌++◌, ◌&&◌, not, ◌==◌,
  length, member, find_first, option_eq, option_or, list_if, if◌then◌else◌, Text, text_eq,
}
use task_ticket_management_s.Codes.{TicketType, Priority, HistoryEventType, type_eq, priority_eq}
use task_ticket_management_s.Document.{Document, document_schema_version, document_eq}
use task_ticket_management_s.Store.{
  Ticket, CustomField, Field, Db, ticket_updated, from_version, to_version, changed_fields,
}
use task_ticket_management_s.Action.{
  Env, auth_error, runtime_error, Action, pure, raise, gets, or_raise, raise_if, modify, ◌>>=◌,
  ◌>>◌, transaction, terminal_ticket_locked, invalid_parent, invalid_assignee,
}
use task_ticket_management_s.Projects.Queries.{is_terminal}
use task_ticket_management_s.Projects.Access.{
  ProjectView, require_project_user_access, uses_system_administrator_override,
}
use task_ticket_management_s.Mentions.{
  validate_mentions, require_available_document_attachments, synchronize_mentions,
}
use task_ticket_management_s.Tickets.Queries.{TicketRow, key_of, parent_ticket}
use task_ticket_management_s.Tickets.Snapshots.{
  build_ticket_snapshot, build_ticket_change_history, add_history, ticket_audit, flush_ticket,
  put_ticket, set_tickets, texts_eq, custom_fields_eq, option_text_eq,
}
use task_ticket_management_s.Tickets.Guards.{
  require_active_project, require_expected_version, get_ticket_row,
}
use task_ticket_management_s.Tickets.Create.{parent_id_of, is_bad_assignee}

-- app/schemas/tickets.py: `TicketUpdate`. Labels and custom fields are there if the request sets
-- them (`model_fields_set`).
pub record TicketUpdate : Type 0 where
  pub labels : Option (List Text)
  pub custom_fields : Option (List CustomField)
  pub title : Text
  pub description_document : Document
  pub priority : Priority
  pub parent_key : Option Text
  pub assignee_id : Option ℕ
  pub due_date : Option ℕ
  pub expected_version : ℕ

abbrev pub parent_of : Option Ticket → Option ℕ
parent_of none = none
parent_of (some t) = t.parent_id

-- `SELECT parent_id … WHERE project_id = … AND id = …`
abbrev pub parent_id_in : List Ticket → ℕ → ℕ → Option ℕ
parent_id_in ts pid i = parent_of (find_first (λ t. (t.project_id == pid) && (t.id == i)) ts)

-- The `while` loop of `parent_would_cycle`, on fuel; `none` means that the fuel ran out.
unfoldable pub cycle_loop : ℕ → List Ticket → ℕ → List ℕ → Option ℕ → Option Bool
cycle_loop zero ts pid seen current = none
cycle_loop (suc fuel) ts pid seen none = some false
cycle_loop (suc fuel) ts pid seen (some i) =
    let rest = cycle_loop fuel ts pid (i ∷ seen) (parent_id_in ts pid i) in
    if member i seen then some true else rest

unfoldable pub parent_would_cycle : List Ticket → ℕ → ℕ → Option ℕ → Option Bool
unfolding cycle_loop
parent_would_cycle ts pid tid parent = cycle_loop (length ts + 2) ts pid (tid ∷ []) parent

abbrev pub expected_parent_type : TicketType → TicketType
expected_parent_type TicketType.task = TicketType.epic
expected_parent_type _ = TicketType.task

-- The last part of `_parent_for_update`, where a parent is named for a task or a subtask.
unfoldable pub named_parent : ℕ → ProjectView → Ticket → Text → Action (Option Ticket)
named_parent actor project ticket key = do
  found ←
      gets
        (λ db. parent_ticket db project.id actor key (uses_system_administrator_override project))
  parent ← or_raise found (auth_error invalid_parent 400)
  raise_if (not (type_eq parent.type (expected_parent_type ticket.type)))
      (auth_error invalid_parent 400)
  looped ← gets (λ db. parent_would_cycle db.tickets project.id ticket.id (some parent.id))
  cycles ← or_raise looped runtime_error
  raise_if cycles (auth_error invalid_parent 400)
  pure (some parent)

unfoldable pub parent_for :
    TicketType → ℕ → ProjectView → Ticket → Option Text → Action (Option Ticket)
parent_for TicketType.epic actor project ticket none = pure none
parent_for TicketType.epic actor project ticket (some key) = raise (auth_error invalid_parent 400)
parent_for TicketType.subtask actor project ticket none = raise (auth_error invalid_parent 400)
parent_for TicketType.subtask actor project ticket (some key) =
    named_parent actor project ticket key
parent_for TicketType.task actor project ticket none = pure none
parent_for TicketType.task actor project ticket (some key) = named_parent actor project ticket key

-- `_parent_for_update`
abbrev pub parent_for_update : ℕ → ProjectView → Ticket → Option Text → Action (Option Ticket)
parent_for_update actor project ticket key = parent_for ticket.type actor project ticket key

-- The assignments to the ticket's columns, and the flush.
unfoldable pub apply_update : ℕ → TicketUpdate → Option Ticket → Document → Ticket → Ticket
unfolding document_schema_version
apply_update now payload parent document t = flush_ticket (record t {
  title = payload.title;
  labels = option_or payload.labels t.labels;
  custom_fields = option_or payload.custom_fields t.custom_fields;
  description_document = document;
  body_schema_version = document_schema_version document;
  priority = payload.priority;
  parent_id = parent_id_of parent;
  assignee_id = payload.assignee_id;
  due_date = payload.due_date;
  updated_at = now;
})

-- `[field for field in desired if desired[field] != current[field]]`
unfoldable pub updated_fields : TicketUpdate → Option Ticket → Document → TicketRow → List Field
unfolding document_eq
updated_fields payload parent document row =
    list_if (not (texts_eq (option_or payload.labels row.ticket.labels) row.ticket.labels))
      Field.labels
    ++ (list_if
          (not (
            custom_fields_eq (option_or payload.custom_fields row.ticket.custom_fields)
              row.ticket.custom_fields))
          Field.custom_fields
        ++ (list_if (not (text_eq payload.title row.ticket.title)) Field.title
            ++ (list_if (not (document_eq document row.ticket.description_document))
                  Field.description_document
                ++ (list_if (not (priority_eq payload.priority row.ticket.priority)) Field.priority
                    ++ (list_if (not (option_text_eq (key_of parent) row.parent_key))
                          Field.parent_key
                        ++ (list_if (not (option_eq payload.assignee_id row.ticket.assignee_id))
                              Field.assignee_id
                            ++ list_if (not (option_eq payload.due_date row.ticket.due_date))
                                Field.due_date))))))

-- The mentions, the history row and the audit event of the change.
unfoldable pub record_update :
    Env → ℕ → TicketRow → Ticket → Option Text → List Field → Db → Db → Db
unfolding build_ticket_change_history synchronize_mentions
record_update env actor row changed parent_key fields before db =
    ticket_audit ticket_updated actor changed
      (from_version row.ticket.version ∷ to_version changed.version ∷ changed_fields fields ∷ [])
      (add_history
        (build_ticket_change_history env actor HistoryEventType.updated
          (build_ticket_snapshot before row.ticket row.parent_key)
          (build_ticket_snapshot db changed parent_key)
          (Field.title ∷ Field.labels ∷ Field.custom_fields ∷ Field.description_document
            ∷ Field.priority ∷ Field.parent_key ∷ Field.assignee_id ∷ Field.due_date ∷ []))
        (record db {
          mentions =
              synchronize_mentions env.now actor changed changed.description_document none
                db.mentions;
        }))

unfoldable pub write_update :
    Env → ℕ → ProjectView → TicketRow → TicketUpdate → Option Ticket → Document → Action TicketRow
write_update env actor project row payload parent document = do
  before ← gets (λ db. db)
  let changed = apply_update env.now payload parent document row.ticket
  modify (λ db. set_tickets (put_ticket changed db.tickets) db)
  modify (
      record_update env actor row changed (key_of parent)
        (updated_fields payload parent document row) before)
  get_ticket_row actor project row.ticket.key

-- `if not changed_fields: return …`
unfoldable pub unless_empty : List Field → TicketRow → Action TicketRow → Action TicketRow
unless_empty [] row write db = pure row db
unless_empty (_ ∷ _) row write db = write db

unfoldable pub update_body : Env → ℕ → Text → Text → TicketUpdate → Action TicketRow
update_body env actor project_key ticket_key payload = do
  project ← require_project_user_access actor project_key
  require_active_project project
  row ← get_ticket_row actor project ticket_key
  require_expected_version row.ticket payload.expected_version
  raise_if (is_terminal row.ticket.status) (auth_error terminal_ticket_locked 409)
  parent ← parent_for_update actor project row.ticket payload.parent_key
  before ← gets (λ db. db)
  raise_if
      (not (option_eq payload.assignee_id row.ticket.assignee_id)
        && is_bad_assignee before project.id payload.assignee_id)
      (auth_error invalid_assignee 400)
  document ← validate_mentions env project.id payload.description_document
  require_available_document_attachments project.id (some row.ticket.id) document
  unless_empty (updated_fields payload parent document row) row
      (write_update env actor project row payload parent document)

unfoldable pub update_ticket : Env → ℕ → Text → Text → TicketUpdate → Action TicketRow
update_ticket env actor project_key ticket_key payload =
    transaction (update_body env actor project_key ticket_key payload)
