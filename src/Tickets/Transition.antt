-- ===== src/Tickets/Transition.antt =====
-- app/services/tickets.py: `transition_ticket`.
pub mod Keeps
pub mod Stamps
pub mod Completes
use task_ticket_management_s.Prelude.{
  ℕ, Bool, false, Option, none, some, [], ◌∷◌, ◌&&◌, not, ltb, is_none, if◌then◌else◌, Text,
}
use task_ticket_management_s.Codes.{TicketType, TicketStatus, HistoryEventType, type_eq, status_eq}
use task_ticket_management_s.Store.{
  Ticket, Field, Db, ticket_status_changed, from_version, to_version, from_status, to_status,
}
use task_ticket_management_s.Action.{
  Env, auth_error, Action, gets, raise_if, modify, ◌>>=◌, ◌>>◌, transaction,
  invalid_status_transition, invalid_assignee, incomplete_dependency,
  incomplete_child_confirmation_required,
}
use task_ticket_management_s.Projects.Queries.{is_terminal}
use task_ticket_management_s.Projects.Access.{require_project_user_access, require_project_member}
use task_ticket_management_s.Tickets.Queries.{
  TicketRow, assignee_is_active_member, incomplete_dependency_count, incomplete_child_count,
}
use task_ticket_management_s.Tickets.Snapshots.{
  build_ticket_snapshot, build_ticket_change_history, add_history, ticket_audit, flush_ticket,
  put_ticket, set_tickets,
}
use task_ticket_management_s.Tickets.Guards.{
  is_allowed_transition, require_active_project, require_expected_version, get_ticket_row,
}

-- app/schemas/tickets.py: `TicketTransition`
pub record TicketTransition : Type 0 where
  pub target_status : TicketStatus
  pub expected_version : ℕ
  pub confirm_incomplete_children : Bool

-- An assignee who may not take the ticket on again.
abbrev pub assignee_is_lost : Db → ℕ → Option ℕ → Bool
assignee_is_lost db pid none = false
assignee_is_lost db pid (some uid) = not (assignee_is_active_member db pid uid)

-- The assignments to the ticket's columns, from `now = utc_now()` to the flush.
unfoldable pub apply_transition : ℕ → TicketStatus → Ticket → Ticket
apply_transition now target t = flush_ticket (record t {
  actual_started_at =
      if status_eq target TicketStatus.in_progress && is_none t.actual_started_at
      then some now
      else t.actual_started_at;
  completed_at =
      if status_eq target TicketStatus.done
      then some now
      else if status_eq t.status TicketStatus.done
      then none
      else t.completed_at;
  cancelled_at =
      if status_eq target TicketStatus.cancelled
      then some now
      else if status_eq t.status TicketStatus.cancelled
      then none
      else t.cancelled_at;
  status = target;
  updated_at = now;
})

-- The history row and the audit event of the change.
unfoldable pub record_transition : Env → ℕ → TicketRow → Ticket → Db → Db → Db
unfolding build_ticket_change_history
record_transition env actor row changed before db =
    ticket_audit ticket_status_changed actor changed
      (from_version row.ticket.version
        ∷ to_version changed.version
        ∷ from_status row.ticket.status
        ∷ to_status changed.status
        ∷ [])
      (add_history
        (build_ticket_change_history env actor HistoryEventType.status_changed
          (build_ticket_snapshot before row.ticket row.parent_key)
          (build_ticket_snapshot db changed row.parent_key)
          (Field.status ∷ Field.actual_started_at ∷ Field.completed_at ∷ Field.cancelled_at ∷ []))
        db)

unfoldable pub transition_body : Env → ℕ → Text → Text → TicketTransition → Action TicketRow
transition_body env actor project_key ticket_key payload = do
  project ← require_project_user_access actor project_key
  require_active_project project
  row ← get_ticket_row actor project ticket_key
  require_expected_version row.ticket payload.expected_version
  raise_if (not (is_allowed_transition row.ticket.status payload.target_status))
      (auth_error invalid_status_transition 409)
  before ← gets (λ db. db)
  raise_if
      (is_terminal row.ticket.status && assignee_is_lost before project.id row.ticket.assignee_id)
      (auth_error invalid_assignee 409)
  raise_if
      (status_eq payload.target_status TicketStatus.done
        && ltb 0 (incomplete_dependency_count before project.id row.ticket.id))
      (auth_error incomplete_dependency 409)
  raise_if
      (status_eq payload.target_status TicketStatus.done
        && type_eq row.ticket.type TicketType.epic
        && ltb 0 (incomplete_child_count before.tickets project.id row.ticket.id)
        && not payload.confirm_incomplete_children)
      (auth_error incomplete_child_confirmation_required 409)
  let changed = apply_transition env.now payload.target_status row.ticket
  modify (λ db. set_tickets (put_ticket changed db.tickets) db)
  modify (record_transition env actor row changed before)
  get_ticket_row actor project row.ticket.key

unfoldable pub transition_ticket : Env → ℕ → Text → Text → TicketTransition → Action TicketRow
transition_ticket env actor project_key ticket_key payload =
    transaction (transition_body env actor project_key ticket_key payload)
