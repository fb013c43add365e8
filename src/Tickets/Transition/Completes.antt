-- ===== src/Tickets/Transition/Completes.antt =====
-- `transition_ticket` does what it is asked to do when its guards allow it.
use task_ticket_management_s.Prelude.{
  ℕ, ◌≡◌, refl, Bool, true, false, not, Option, none, some, List, ◌&&◌, ◌==◌, ltb, is_some, In,
  In-map, find_first, find_first-In, find_first-none, Option-cases, inl, inr, &&-true, &&_intro,
  ==_refl, Text, text_eq, text_eq_refl, strip, upper, if◌then◌else◌,
}
use task_ticket_management_s.Codes.{TicketType, TicketStatus, type_eq, status_eq}
use task_ticket_management_s.Store.{Ticket, AuditLog, Db}
use task_ticket_management_s.Action.{
  Env, ok, auth_error, or_raise, transaction, settle, ◌>>=◌, ticket_not_found,
}
use task_ticket_management_s.Projects.Queries.{is_terminal}
use task_ticket_management_s.Projects.Access.{
  ProjectView, require_project_user_access, uses_system_administrator_override,
}
use task_ticket_management_s.Tickets.Queries.{
  TicketRow, ticket_query, ticket_row, incomplete_dependency_count, incomplete_child_count,
}
use task_ticket_management_s.Tickets.Snapshots.{put_ticket, set_tickets}
use task_ticket_management_s.Tickets.Guards.{is_allowed_transition, get_ticket_row}
use task_ticket_management_s.Tickets.Guards.Rules.{to_row-some}
use task_ticket_management_s.Tickets.Transition.{
  TicketTransition, assignee_is_lost, apply_transition, record_transition, transition_body,
  transition_ticket,
}

-- The conditions of the call: access, an active project, the ticket's row under a key in its normal
-- form, the expected version, and the guards of the transition.
pub record IsPermitted (actor : ℕ) (project_key ticket_key : Text) (payload : TicketTransition)
    (db : Db) (p : ProjectView) (xs : List AuditLog) (row : TicketRow) : Type 0 where
  pub access : require_project_user_access actor project_key db ≡ (ok p, record db { audits = xs })
  pub active : p.is_active ≡ true
  pub found :
      ticket_row db p.id actor (upper (strip ticket_key)) (uses_system_administrator_override p)
      ≡ some row
  pub normal : upper (strip row.ticket.key) ≡ row.ticket.key
  pub version : (row.ticket.version == payload.expected_version) ≡ true
  pub allowed : is_allowed_transition row.ticket.status payload.target_status ≡ true
  pub assigned :
      (is_terminal row.ticket.status && assignee_is_lost db p.id row.ticket.assignee_id) ≡ false
  pub dependencies :
      (status_eq payload.target_status TicketStatus.done
        && ltb 0 (incomplete_dependency_count db p.id row.ticket.id))
      ≡ false
  pub children :
      (status_eq payload.target_status TicketStatus.done
        && type_eq row.ticket.type TicketType.epic
        && ltb 0 (incomplete_child_count db.tickets p.id row.ticket.id)
        && not payload.confirm_incomplete_children)
      ≡ false

module _ (env : Env) (actor : ℕ) (project_key ticket_key : Text) (payload : TicketTransition)
    (db : Db) (p : ProjectView) (xs : List AuditLog) (row : TicketRow)
    (permitted : IsPermitted actor project_key ticket_key payload db p xs row) where
  abbrev changed : Ticket
  changed = apply_transition env.now payload.target_status row.ticket

  abbrev written : Db
  written =
      record_transition env actor row changed (record db { audits = xs })
        (set_tickets (put_ticket changed db.tickets) (record db { audits = xs }))

  abbrev override : Bool
  override = uses_system_administrator_override p

  -- The guards pass, and the body comes to its last read.
  body_runs :
      transition_body env actor project_key ticket_key payload db
      ≡ or_raise
          (ticket_row written p.id actor (upper (strip row.ticket.key)) override)
          (auth_error ticket_not_found 404)
          written
  unfolding transition_body get_ticket_row ◌>>=◌
  body_runs =
      rw
        (
          permitted.access, permitted.active, permitted.found, permitted.version, permitted.allowed,
          permitted.assigned, permitted.dependencies, permitted.children,
        )
        refl

  abbrev wanted : Ticket → Bool
  wanted t = ticket_query written p.id actor override t && text_eq t.key row.ticket.key

  changed-wanted : wanted changed ≡ true
  unfolding apply_transition record_transition
  changed-wanted =
      let (_, q) =
        find_first-In _ db.tickets row.ticket (to_row-some db.tickets _ row permitted.found) in
      &&_intro (ticket_query db p.id actor override row.ticket) _
        (&&-true (ticket_query db p.id actor override row.ticket) _ q).0
        (text_eq_refl row.ticket.key)

  changed-In : In changed (put_ticket changed db.tickets)
  unfolding apply_transition
  changed-In =
      let (m, _) =
        find_first-In _ db.tickets row.ticket (to_row-some db.tickets _ row permitted.found) in
      let there = In-map (λ t. if t.id == changed.id then changed else t) db.tickets row.ticket m in
      rw (==_refl row.ticket.id) at there

  row_again : is_some (ticket_row written p.id actor (upper (strip row.ticket.key)) override) ≡ true
  unfolding record_transition
  row_again =
      rw permitted.normal (elim (Option-cases (find_first wanted (put_ticket changed db.tickets))) [
        | inl e ↦ cc (
          find_first-none wanted (put_ticket changed db.tickets) changed e changed-In,
          changed-wanted,
        )
        | inr (t, e) ↦ rw e refl
      ])

  commits :
      (o : Option TicketRow)
      → is_some o ≡ true
      → ((r : TicketRow) × ((settle db (or_raise o (auth_error ticket_not_found 404) written)).0
            ≡ ok r))
        × ((settle db (or_raise o (auth_error ticket_not_found 404) written)).1.tickets
            ≡ put_ticket changed db.tickets)
  unfolding or_raise record_transition
  commits none h = cc
  commits (some r) h = ((r, refl), refl)

  -- `transition_ticket` does what it is asked: if the actor has write access, the project is
  -- active, the ticket is found under a key that is stripped and in upper case, the version is the
  -- expected one, the transition is allowed, a reopened ticket's assignee may take it on, and a
  -- completion has no incomplete dependency and, for an epic, no incomplete child that is not
  -- confirmed, then the call returns a row, and the tickets afterwards are those before with the
  -- ticket changed by `apply_transition`.
  pub transition_ticket-completes :
      ((r : TicketRow) × ((transition_ticket env actor project_key ticket_key payload db).0 ≡ ok r))
      × ((transition_ticket env actor project_key ticket_key payload db).1.tickets
          ≡ put_ticket (apply_transition env.now payload.target_status row.ticket) db.tickets)
  unfolding transition_ticket transaction
  transition_ticket-completes = rw body_runs (commits _ row_again)
