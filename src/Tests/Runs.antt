-- ===== src/Tests/Runs.antt =====
-- The services on the sample database, run to their results.
use task_ticket_management_s.Prelude.{◌≡◌, refl, List, [], ◌∷◌, map, text_eq, upper, strip}
use task_ticket_management_s.Codes.{TicketStatus}
use task_ticket_management_s.Store.{Db}
use task_ticket_management_s.Action.{
  auth_error, err, transaction, ◌>>=◌, last_project_administrator,
}
use task_ticket_management_s.Tickets.Transition.{
  transition_ticket, transition_body, record_transition, apply_transition,
}
use task_ticket_management_s.Tickets.Guards.{get_ticket_row, is_allowed_transition}
use task_ticket_management_s.Tickets.Snapshots.{build_ticket_change_history}
use task_ticket_management_s.Projects.Access.{require_project_member, is_system_administrator, when}
use task_ticket_management_s.Projects.Settings.{lock_project_management}
use task_ticket_management_s.Projects.Members.{
  remove_project_member, remove_member_body, require_member_removal_constraints,
}
use task_ticket_management_s.Tests.{key_ab, key_ab_2, sample_env, sample_db}
use task_ticket_management_s.Tests.Examples.{sample_transition}

abbrev statuses : Db → List TicketStatus
statuses db = map (λ t. t.status) db.tickets

transition_run :
    statuses (transition_ticket sample_env 2 key_ab key_ab_2 sample_transition sample_db).1
    ≡ TicketStatus.todo ∷ TicketStatus.done ∷ []
unfolding transition_ticket transition_body get_ticket_row is_allowed_transition record_transition
    apply_transition build_ticket_change_history transaction ◌>>=◌ require_project_member
    is_system_administrator when text_eq upper strip
transition_run = refl

remove_last_administrator_run :
    remove_project_member 1 key_ab 1 sample_db
    ≡ (err (auth_error last_project_administrator 409), sample_db)
unfolding remove_project_member remove_member_body lock_project_management
    require_member_removal_constraints transaction ◌>>=◌ require_project_member
    is_system_administrator when text_eq
remove_last_administrator_run = refl
