-- ===== src/Tickets/Snapshots.antt =====
-- app/services/tickets.py: snapshots of a ticket's state, history rows and audit events. A ticket's
-- `updated_at`, `version` and the rest of its row are in its `Ticket`.
use task_ticket_management_s.Prelude.{
  ℕ, Bool, true, false, Option, none, some, List, [], ◌∷◌, ◌++◌, ◌&&◌, ◌+◌, not, ◌==◌, option_eq,
  select, order_by, map, if◌then◌else◌, Text, text_eq,
}
use task_ticket_management_s.Codes.{HistoryEventType, status_eq, priority_eq, relation_eq}
use task_ticket_management_s.Document.{document_eq}
use task_ticket_management_s.Store.{
  Ticket, CustomField, RelationSnapshot, TicketState, TicketHistory, TicketRelation, Field,
  AuditAction, Detail, DependencyKind, Db, ticket_target, project_id, ticket_id, ticket_type,
}
use task_ticket_management_s.Action.{Env}
use task_ticket_management_s.Projects.Access.{add_audit}
use task_ticket_management_s.Tickets.Queries.{
  touches, snapshot_with, ticket_key_by_id, by_relation_id,
}

abbrev pub flat_snapshots : List Ticket → ℕ → List TicketRelation → List RelationSnapshot
flat_snapshots ts pid [] = []
flat_snapshots ts pid (r ∷ rs) =
    snapshot_with r (ticket_key_by_id ts pid r.source_ticket_id)
      (ticket_key_by_id ts pid r.target_ticket_id)
    ++ flat_snapshots ts pid rs

-- `repository.relation_rows`
abbrev pub relation_rows : Db → ℕ → ℕ → List RelationSnapshot
relation_rows db pid tid =
    flat_snapshots db.tickets pid
      (order_by by_relation_id (select (λ r. (r.project_id == pid) && touches tid r) db.relations))

-- `_build_ticket_snapshot`, of `_build_ticket_state_snapshot`
abbrev pub build_ticket_snapshot : Db → Ticket → Option Text → TicketState
build_ticket_snapshot db t parent_key = record {
  ticket = t;
  parent_key = parent_key;
  relations = relation_rows db t.project_id t.id;
}

abbrev pub option_text_eq : Option Text → Option Text → Bool
option_text_eq none none = true
option_text_eq (some a) (some b) = text_eq a b
option_text_eq _ _ = false

abbrev pub texts_eq : List Text → List Text → Bool
texts_eq [] [] = true
texts_eq (a ∷ s) (b ∷ t) = text_eq a b && texts_eq s t
texts_eq _ _ = false

abbrev pub custom_fields_eq : List CustomField → List CustomField → Bool
custom_fields_eq [] [] = true
custom_fields_eq (a ∷ s) (b ∷ t) =
    text_eq a.field_id b.field_id
    && text_eq a.name b.name
    && text_eq a.field_type b.field_type
    && text_eq a.value b.value
    && custom_fields_eq s t
custom_fields_eq _ _ = false

abbrev pub kind_eq : Option DependencyKind → Option DependencyKind → Bool
kind_eq none none = true
kind_eq (some DependencyKind.fs) (some DependencyKind.fs) = true
kind_eq (some DependencyKind.ss) (some DependencyKind.ss) = true
kind_eq (some DependencyKind.ff) (some DependencyKind.ff) = true
kind_eq (some DependencyKind.sf) (some DependencyKind.sf) = true
kind_eq _ _ = false

abbrev pub snapshots_eq : List RelationSnapshot → List RelationSnapshot → Bool
snapshots_eq [] [] = true
snapshots_eq (a ∷ s) (b ∷ t) =
    text_eq a.source_ticket_key b.source_ticket_key
    && text_eq a.target_ticket_key b.target_ticket_key
    && relation_eq a.relation_type b.relation_type
    && kind_eq a.dependency_kind b.dependency_kind
    && (a.lag_days == b.lag_days)
    && snapshots_eq s t
snapshots_eq _ _ = false

-- `before_data[field] == after_data[field]`
abbrev pub field_eq : TicketState → TicketState → Field → Bool
field_eq a b Field.whole_ticket = false
field_eq a b Field.title = text_eq a.ticket.title b.ticket.title
field_eq a b Field.labels = texts_eq a.ticket.labels b.ticket.labels
field_eq a b Field.custom_fields = custom_fields_eq a.ticket.custom_fields b.ticket.custom_fields
field_eq a b Field.description_document =
    document_eq a.ticket.description_document b.ticket.description_document
field_eq a b Field.priority = priority_eq a.ticket.priority b.ticket.priority
field_eq a b Field.parent_key = option_text_eq a.parent_key b.parent_key
field_eq a b Field.assignee_id = option_eq a.ticket.assignee_id b.ticket.assignee_id
field_eq a b Field.due_date = option_eq a.ticket.due_date b.ticket.due_date
field_eq a b Field.status = status_eq a.ticket.status b.ticket.status
field_eq a b Field.actual_started_at =
    option_eq a.ticket.actual_started_at b.ticket.actual_started_at
field_eq a b Field.completed_at = option_eq a.ticket.completed_at b.ticket.completed_at
field_eq a b Field.cancelled_at = option_eq a.ticket.cancelled_at b.ticket.cancelled_at
field_eq a b Field.deleted_at = option_eq a.ticket.deleted_at b.ticket.deleted_at
field_eq a b Field.relations = snapshots_eq a.relations b.relations

-- `_build_ticket_change_history`
unfoldable pub build_ticket_change_history :
    Env → ℕ → HistoryEventType → TicketState → TicketState → List Field → TicketHistory
unfolding document_eq
build_ticket_change_history env actor kind before after fields = record {
  project_id = after.ticket.project_id;
  ticket_id = after.ticket.id;
  operation_id = env.operation_id;
  ticket_version = after.ticket.version;
  event_type = kind;
  actor_id = actor;
  occurred_at = after.ticket.updated_at;
  before_state = some before;
  after_state = after;
  changes = select (λ f. not (field_eq before after f)) fields;
}

abbrev pub add_history : TicketHistory → Db → Db
add_history h db = record db { histories = db.histories ++ h ∷ [] }

-- `record_ticket_audit_event`
abbrev pub ticket_audit : AuditAction → ℕ → Ticket → List Detail → Db → Db
ticket_audit action actor t details = add_audit (record {
  action = action;
  actor_user_id = actor;
  target = ticket_target t.key;
  details = project_id t.project_id ∷ ticket_id t.id ∷ ticket_type t.type ∷ details;
})

-- The flush of a changed row: the version column counts the update (`version_id_col`).
abbrev pub flush_ticket : Ticket → Ticket
flush_ticket t = record t { version = t.version + 1 }

abbrev pub put_ticket : Ticket → List Ticket → List Ticket
put_ticket c ts = map (λ t. if t.id == c.id then c else t) ts

abbrev pub set_tickets : List Ticket → Db → Db
set_tickets ts db = record db { tickets = ts }
