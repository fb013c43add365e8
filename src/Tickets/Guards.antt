-- ===== src/Tickets/Guards.antt =====
-- app/services/tickets.py: the finite state machine, the permission tests and the guards with which
-- the ticket services begin.
pub mod Rules
pub mod Machine
use task_ticket_management_s.Prelude.{
  ℕ, Bool, List, [], ◌∷◌, ◌&&◌, ◌||◌, not, ◌==◌, any, Text, strip, upper,
}
use task_ticket_management_s.Codes.{TicketStatus, status_eq}
use task_ticket_management_s.Store.{Ticket}
use task_ticket_management_s.Action.{
  auth_error, Action, gets, or_raise, raise_if, ◌>>=◌, project_inactive, ticket_not_found,
  ticket_version_conflict, terminal_ticket_relation_locked,
}
use task_ticket_management_s.Projects.Queries.{is_terminal}
use task_ticket_management_s.Projects.Access.{
  ProjectView, is_project_writer, uses_system_administrator_override,
}
use task_ticket_management_s.Tickets.Queries.{TicketRow, ticket_row}

-- `FSM_TRANSITIONS`, read by `get_allowed_transitions`
unfoldable pub get_allowed_transitions : TicketStatus → List TicketStatus
get_allowed_transitions TicketStatus.todo =
    TicketStatus.in_progress ∷ TicketStatus.on_hold ∷ TicketStatus.cancelled ∷ []
get_allowed_transitions TicketStatus.in_progress =
    TicketStatus.done ∷ TicketStatus.on_hold ∷ TicketStatus.cancelled ∷ []
get_allowed_transitions TicketStatus.on_hold =
    TicketStatus.todo ∷ TicketStatus.in_progress ∷ TicketStatus.cancelled ∷ []
get_allowed_transitions TicketStatus.done = TicketStatus.in_progress ∷ []
get_allowed_transitions TicketStatus.cancelled = TicketStatus.todo ∷ []

-- `target_status in get_allowed_transitions(current_status)`
unfoldable pub is_allowed_transition : TicketStatus → TicketStatus → Bool
unfolding get_allowed_transitions
is_allowed_transition from to = any (λ s. status_eq s to) (get_allowed_transitions from)

unfoldable pub can_edit_ticket : ProjectView → Bool
can_edit_ticket p = is_project_writer p.role || p.can_manage

unfoldable pub can_restore_ticket : ProjectView → Bool
can_restore_ticket p = p.is_active && (is_project_writer p.role || p.can_manage)

abbrev pub require_active_project : ProjectView → Action (Unit {0})
require_active_project p = raise_if (not p.is_active) (auth_error project_inactive 409)

abbrev pub require_expected_version : Ticket → ℕ → Action (Unit {0})
require_expected_version t expected =
    raise_if (not (t.version == expected)) (auth_error ticket_version_conflict 409)

abbrev pub require_relation_ticket_editable : Ticket → Action (Unit {0})
require_relation_ticket_editable t =
    raise_if (is_terminal t.status) (auth_error terminal_ticket_relation_locked 409)

-- `_get_ticket_row`, on a key that is stripped and in upper case.
unfoldable pub get_ticket_row : ℕ → ProjectView → Text → Action TicketRow
get_ticket_row actor p key = do
  found ←
      gets
        (λ db. ticket_row db p.id actor (upper (strip key)) (uses_system_administrator_override p))
  or_raise found (auth_error ticket_not_found 404)
