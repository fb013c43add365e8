-- ===== src/Tickets/Relations.antt =====
-- app/services/tickets.py: `create_ticket_relation` and `delete_ticket_relation`.
pub mod Keeps
use task_ticket_management_s.Prelude.{
  ℕ, Bool, true, false, Option, none, some, List, [], ◌∷◌, ◌++◌, ◌&&◌, ◌||◌, not, ◌==◌, leb, select,
  if◌then◌else◌, Text,
}
use task_ticket_management_s.Codes.{RelationType, HistoryEventType, relation_eq}
use task_ticket_management_s.Store.{
  Ticket, TicketRelation, DependencyKind, Field, AuditAction, Detail, Db, TicketState,
  ticket_relation_created, ticket_relation_deleted, operation_id, relation_id, relation_type,
  counterpart_ticket_key, from_version, to_version,
}
use task_ticket_management_s.Action.{
  Env, auth_error, Action, pure, gets, or_raise, raise_if, modify, ◌>>=◌, ◌>>◌, transaction,
  invalid_relation_target, self_ticket_relation, ticket_relation_conflict,
  ticket_relation_not_found,
}
use task_ticket_management_s.Projects.Access.{
  ProjectView, require_project_user_access, uses_system_administrator_override,
}
use task_ticket_management_s.Tickets.Queries.{
  TicketRow, ticket_row, ticket_row_by_id, relation_exists, ticket_relation,
}
use task_ticket_management_s.Tickets.Snapshots.{
  build_ticket_snapshot, build_ticket_change_history, add_history, ticket_audit, flush_ticket,
  put_ticket, set_tickets,
}
use task_ticket_management_s.Tickets.Guards.{
  require_active_project, require_expected_version, require_relation_ticket_editable,
  get_ticket_row,
}

-- app/schemas/tickets.py: `TicketRelationCreate`, with the key as its validator leaves it.
pub record TicketRelationCreate : Type 0 where
  pub relation_kind : RelationType
  pub target_ticket_key : Text
  pub expected_version : ℕ

-- `ticket.updated_at = now`, and its flush: a row whose columns keep their values is not updated.
unfoldable pub touch : ℕ → Ticket → Ticket
touch now t = if t.updated_at == now then t else flush_ticket (record t { updated_at = now })

-- The two endpoints of a new relation in their order: that of the ids for `RELATED`, else the
-- current ticket first.
unfoldable pub order_endpoints : RelationType → TicketRow → TicketRow → TicketRow × TicketRow
order_endpoints RelationType.related current target =
    if leb current.ticket.id target.ticket.id then (current, target) else (target, current)
order_endpoints RelationType.depends_on current target = (current, target)

unfoldable pub new_relation : Env → ℕ → ℕ → RelationType → Ticket → Ticket → TicketRelation
new_relation env actor pid kind source target = record {
  id = env.new_id;
  project_id = pid;
  source_ticket_id = source.id;
  target_ticket_id = target.id;
  relation_type = kind;
  dependency_kind =
      if relation_eq kind RelationType.depends_on then some DependencyKind.fs else none;
  lag_days = 0;
  created_by_id = actor;
  created_at = env.now;
}

-- One round of the loop of `_record_relation_change`.
unfoldable pub record_endpoint :
    Env → ℕ → AuditAction → TicketRelation → TicketRow → Ticket → Ticket → Db → Db → Db
unfolding build_ticket_change_history
record_endpoint env actor action relation row changed counterpart before db =
    ticket_audit action actor changed
      (operation_id env.operation_id
        ∷ relation_id relation.id
        ∷ Detail.relation_type relation.relation_type
        ∷ counterpart_ticket_key counterpart.key
        ∷ from_version row.ticket.version
        ∷ to_version changed.version
        ∷ [])
      (add_history
        (build_ticket_change_history env actor HistoryEventType.relation_changed
          (build_ticket_snapshot before row.ticket row.parent_key)
          (build_ticket_snapshot db changed row.parent_key) (Field.relations ∷ []))
        db)

-- The writes to the two endpoints, and `_record_relation_change`.
unfoldable pub change_endpoints :
    Env → ℕ → AuditAction → TicketRelation → TicketRow → TicketRow → Db → Action (Unit {0})
change_endpoints env actor action relation source target before = do
  let source_changed = touch env.now source.ticket
  let target_changed = touch env.now target.ticket
  modify (λ db. set_tickets (put_ticket target_changed (put_ticket source_changed db.tickets)) db)
  modify (record_endpoint env actor action relation source source_changed target_changed before)
  modify (record_endpoint env actor action relation target target_changed source_changed before)

unfoldable pub create_relation_body :
    Env → ℕ → Text → Text → TicketRelationCreate → Action TicketRow
create_relation_body env actor project_key ticket_key payload = do
  project ← require_project_user_access actor project_key
  require_active_project project
  current ← get_ticket_row actor project ticket_key
  require_expected_version current.ticket payload.expected_version
  found ← gets (λ db.
      ticket_row db project.id actor payload.target_ticket_key
        (uses_system_administrator_override project))
  target ← or_raise found (auth_error invalid_relation_target 400)
  raise_if (target.ticket.id == current.ticket.id) (auth_error self_ticket_relation 400)
  require_relation_ticket_editable current.ticket
  require_relation_ticket_editable target.ticket
  let endpoints = order_endpoints payload.relation_kind current target
  before ← gets (λ db. db)
  raise_if
      (relation_exists before project.id actor endpoints.0.ticket.id endpoints.1.ticket.id
        payload.relation_kind (uses_system_administrator_override project))
      (auth_error ticket_relation_conflict 409)
  let relation =
      new_relation env actor project.id payload.relation_kind endpoints.0.ticket endpoints.1.ticket
  modify (λ db. record db { relations = db.relations ++ relation ∷ [] })
  change_endpoints env actor ticket_relation_created relation endpoints.0 endpoints.1 before
  get_ticket_row actor project current.ticket.key

unfoldable pub create_ticket_relation :
    Env → ℕ → Text → Text → TicketRelationCreate → Action TicketRow
create_ticket_relation env actor project_key ticket_key payload =
    transaction (create_relation_body env actor project_key ticket_key payload)

-- `_relation_endpoint_rows`
unfoldable pub relation_endpoint_rows :
    ℕ → ProjectView → TicketRelation → Action (TicketRow × TicketRow)
relation_endpoint_rows actor project relation = do
  found_source ← gets (λ db.
      ticket_row_by_id db project.id actor relation.source_ticket_id
        (uses_system_administrator_override project))
  source ← or_raise found_source (auth_error ticket_relation_not_found 404)
  found_target ← gets (λ db.
      ticket_row_by_id db project.id actor relation.target_ticket_id
        (uses_system_administrator_override project))
  target ← or_raise found_target (auth_error ticket_relation_not_found 404)
  pure (source, target)

unfoldable pub delete_relation_body : Env → ℕ → Text → Text → ℕ → ℕ → Action TicketRow
delete_relation_body env actor project_key ticket_key relation_key expected_version = do
  project ← require_project_user_access actor project_key
  require_active_project project
  current ← get_ticket_row actor project ticket_key
  require_expected_version current.ticket expected_version
  found ← gets (λ db.
      ticket_relation db project.id actor current.ticket.id relation_key
        (uses_system_administrator_override project))
  relation ← or_raise found (auth_error ticket_relation_not_found 404)
  endpoints ← relation_endpoint_rows actor project relation
  require_relation_ticket_editable endpoints.0.ticket
  require_relation_ticket_editable endpoints.1.ticket
  before ← gets (λ db. db)
  modify (λ db. record db { relations = select (λ r. not (r.id == relation.id)) db.relations })
  change_endpoints env actor ticket_relation_deleted relation endpoints.0 endpoints.1 before
  get_ticket_row actor project current.ticket.key

unfoldable pub delete_ticket_relation : Env → ℕ → Text → Text → ℕ → ℕ → Action TicketRow
delete_ticket_relation env actor project_key ticket_key relation_key expected_version =
    transaction
      (delete_relation_body env actor project_key ticket_key relation_key expected_version)
