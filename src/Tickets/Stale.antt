-- ===== src/Tickets/Stale.antt =====
-- Optimistic locking: the services that change a ticket refuse a version that is not the ticket's.
use task_ticket_management_s.Prelude.{
  ℕ, ◌≡◌, refl, true, false, some, List, ◌==◌, Text, strip, upper,
}
use task_ticket_management_s.Store.{AuditLog, Db}
use task_ticket_management_s.Action.{
  Env, ok, err, auth_error, transaction, ◌>>=◌, ticket_version_conflict,
}
use task_ticket_management_s.Projects.Access.{
  ProjectView, require_project_user_access, uses_system_administrator_override,
}
use task_ticket_management_s.Tickets.Queries.{TicketRow, ticket_row}
use task_ticket_management_s.Tickets.Guards.{get_ticket_row}
use task_ticket_management_s.Tickets.Transition.{
  TicketTransition, transition_body, transition_ticket,
}
use task_ticket_management_s.Tickets.Update.{TicketUpdate, update_body, update_ticket}
use task_ticket_management_s.Tickets.Relations.{
  TicketRelationCreate, create_relation_body, create_ticket_relation, delete_relation_body,
  delete_ticket_relation,
}
use task_ticket_management_s.Tickets.Trash.{trash_body, move_ticket_to_trash}

-- The actor may write to the active project, and the ticket is there.
pub record IsWritable (actor : ℕ) (project_key ticket_key : Text) (db : Db) (p : ProjectView)
    (xs : List AuditLog) (row : TicketRow) : Type 0 where
  pub access : require_project_user_access actor project_key db ≡ (ok p, record db { audits = xs })
  pub active : p.is_active ≡ true
  pub found :
      ticket_row db p.id actor (upper (strip ticket_key)) (uses_system_administrator_override p)
      ≡ some row

module _ (env : Env) (actor : ℕ) (project_key ticket_key : Text) (db : Db) (p : ProjectView)
    (xs : List AuditLog) (row : TicketRow)
    (writable : IsWritable actor project_key ticket_key db p xs row) (n : ℕ)
    (stale : (row.ticket.version == n) ≡ false) where
  transition_ticket-stale :
      (payload : TicketTransition)
      → payload.expected_version ≡ n
      → transition_ticket env actor project_key ticket_key payload db
        ≡ (err (auth_error ticket_version_conflict 409), db)
  unfolding transition_ticket transition_body get_ticket_row ◌>>=◌ transaction
  transition_ticket-stale payload e =
      rw (writable.access, writable.active, writable.found, e, stale) refl

  update_ticket-stale :
      (payload : TicketUpdate)
      → payload.expected_version ≡ n
      → update_ticket env actor project_key ticket_key payload db
        ≡ (err (auth_error ticket_version_conflict 409), db)
  unfolding update_ticket update_body get_ticket_row ◌>>=◌ transaction
  update_ticket-stale payload e =
      rw (writable.access, writable.active, writable.found, e, stale) refl

  move_ticket_to_trash-stale :
      move_ticket_to_trash env actor project_key ticket_key n db
      ≡ (err (auth_error ticket_version_conflict 409), db)
  unfolding move_ticket_to_trash trash_body get_ticket_row ◌>>=◌ transaction
  move_ticket_to_trash-stale = rw (writable.access, writable.active, writable.found, stale) refl

  create_ticket_relation-stale :
      (payload : TicketRelationCreate)
      → payload.expected_version ≡ n
      → create_ticket_relation env actor project_key ticket_key payload db
        ≡ (err (auth_error ticket_version_conflict 409), db)
  unfolding create_ticket_relation create_relation_body get_ticket_row ◌>>=◌ transaction
  create_ticket_relation-stale payload e =
      rw (writable.access, writable.active, writable.found, e, stale) refl

  delete_ticket_relation-stale :
      (relation : ℕ)
      → delete_ticket_relation env actor project_key ticket_key relation n db
        ≡ (err (auth_error ticket_version_conflict 409), db)
  unfolding delete_ticket_relation delete_relation_body get_ticket_row ◌>>=◌ transaction
  delete_ticket_relation-stale relation =
      rw (writable.access, writable.active, writable.found, stale) refl

  -- Optimistic locking: if the actor has write access, the project is active and the ticket is
  -- found, but its version is not the one that the caller expects, then `transition_ticket`,
  -- `update_ticket`, `move_ticket_to_trash`, `create_ticket_relation` and `delete_ticket_relation`
  -- each raise `ticket_version_conflict` with status 409 and leave the database as it was.
  pub stale_version_lem :
      (t : TicketTransition) (u : TicketUpdate) (r : TicketRelationCreate) (relation : ℕ)
      → (transition_ticket env actor project_key ticket_key (record t { expected_version = n }) db
          ≡ (err (auth_error ticket_version_conflict 409), db))
        × (update_ticket env actor project_key ticket_key (record u { expected_version = n }) db
            ≡ (err (auth_error ticket_version_conflict 409), db))
        × (move_ticket_to_trash env actor project_key ticket_key n db
            ≡ (err (auth_error ticket_version_conflict 409), db))
        × (create_ticket_relation env actor project_key ticket_key
              (record r { expected_version = n })
              db
            ≡ (err (auth_error ticket_version_conflict 409), db))
        × (delete_ticket_relation env actor project_key ticket_key relation n db
            ≡ (err (auth_error ticket_version_conflict 409), db))
  stale_version_lem t u r relation = (
    transition_ticket-stale (record t { expected_version = n }) refl,
    update_ticket-stale (record u { expected_version = n }) refl,
    move_ticket_to_trash-stale,
    create_ticket_relation-stale (record r { expected_version = n }) refl,
    delete_ticket_relation-stale relation,
  )
