-- ===== src/Tickets/Transition/Keeps.antt =====
-- `transition_ticket` keeps the tables valid.
use task_ticket_management_s.Prelude.{
  ℕ, ◌≡◌, refl, true, false, not, none, some, List, Text, ◌&&◌, any, any-In, any_intro, &&-true,
  not-false, arith, is_some, Bool-cases, inl, inr,
}
use task_ticket_management_s.Codes.{TicketStatus, status_eq}
use task_ticket_management_s.Store.{Ticket, ProjectMember, Db}
use task_ticket_management_s.Action.{Env}
use task_ticket_management_s.Action.Triple.{
  Returns, Returns-raise_if, Returns-gets, Returns-modify, transaction_keeps,
}
use task_ticket_management_s.Projects.Queries.{is_terminal}
use task_ticket_management_s.Projects.Access.Rules.{Returns-access}
use task_ticket_management_s.Tickets.Queries.{
  TicketRow, is_assignable, assignee_is_active_member, is_active_user,
}
use task_ticket_management_s.Tickets.Snapshots.{put_ticket}
use task_ticket_management_s.Tickets.Guards.Rules.{IsActiveTicket, Returns-row, Returns-last_row}
use task_ticket_management_s.Tickets.Transition.{
  TicketTransition, assignee_is_lost, apply_transition, record_transition, transition_body,
  transition_ticket,
}
use task_ticket_management_s.Validity.{IsValid, IsValidRow, IsValidTickets}
use task_ticket_management_s.Validity.Update.{put_ticket-IsValidTickets}

-- An active member who may be assigned tickets has a membership that is not a guest's.
pub assignable_member :
    (db : Db) (pid uid : ℕ)
    → assignee_is_active_member db pid uid ≡ true
    → any (is_assignable pid uid) db.members ≡ true
assignable_member db pid uid h =
    let (m, i, q) = any-In _ db.members h in
    any_intro (is_assignable pid uid) db.members m i
      (&&-true (is_assignable pid uid m) (is_active_user db.users uid) q).0

module _ (now : ℕ) (target : TicketStatus) (ms : List ProjectMember) (t : Ticket)
    (v : IsValidRow ms t) where
  -- The time stamps follow the status.
  apply_transition_completed :
      is_some (apply_transition now target t).completed_at ≡ status_eq target TicketStatus.done
  unfolding apply_transition
  apply_transition_completed = ground (arith, v.completed)

  apply_transition_cancelled :
      is_some (apply_transition now target t).cancelled_at ≡ status_eq target TicketStatus.cancelled
  unfolding apply_transition
  apply_transition_cancelled = ground (arith, v.cancelled)

  apply_transition-IsValidRow :
      ((u : ℕ)
        → t.assignee_id ≡ some u
        → is_terminal t.status ≡ true
        → any (is_assignable t.project_id u) ms ≡ true)
      → t.deleted_at ≡ none
      → IsValidRow ms (apply_transition now target t)
  unfolding apply_transition
  apply_transition-IsValidRow reopens active = record {
    shape = v.shape;
    deletion_pair = v.deletion_pair;
    completed = apply_transition_completed;
    cancelled = apply_transition_cancelled;
    positive = omega arith;
    assignee = λ u e _. elim (Bool-cases (is_terminal t.status)) [
      | inl terminal ↦ reopens u e terminal
      | inr unfinished ↦ v.assignee u e (rw (active, unfinished))
    ];
  }

-- The guard on a reopened ticket: its assignee may take it on.
reopens_safely :
    (db : Db) (pid : ℕ) (t : Ticket)
    → t.project_id ≡ pid
    → (is_terminal t.status && assignee_is_lost db pid t.assignee_id) ≡ false
    → (u : ℕ) → t.assignee_id ≡ some u
    → is_terminal t.status ≡ true
    → any (is_assignable t.project_id u) db.members ≡ true
reopens_safely db pid t same guard u e terminal =
    rw same (assignable_member db pid u (kept (rw (terminal, e) at guard)))
  where
    kept :
        not (assignee_is_active_member db pid u) ≡ false → assignee_is_active_member db pid u ≡ true
    kept h = not-false (assignee_is_active_member db pid u) h

module _ (db : Db) (pid now : ℕ) (target : TicketStatus) (t : Ticket) where
  transitioned-IsValidTickets :
      IsValidTickets db.tickets db.members
      → IsActiveTicket db.tickets pid t
      → (is_terminal t.status && assignee_is_lost db pid t.assignee_id) ≡ false
      → IsValidTickets (put_ticket (apply_transition now target t) db.tickets) db.members
  unfolding apply_transition
  transitioned-IsValidTickets v here guard =
      put_ticket-IsValidTickets db.tickets db.members t (apply_transition now target t) v (record {
        old_row = here.stands;
        keeps_id = refl;
        same_project = refl;
        same_type = refl;
        was_active = here.active;
        is_active = here.active;
        row =
            apply_transition-IsValidRow now target db.members t (v.row t here.stands)
              (reopens_safely db pid t here.of_project guard) here.active;
        parent = v.parent t here.stands;
      })

module _ (env : Env) (actor : ℕ) (project_key ticket_key : Text) (payload : TicketTransition)
    (db : Db) (valid : IsValid db) where
  transition_body-Returns :
      Returns
        (λ (_ : TicketRow) d. IsValid d)
        (transition_body env actor project_key ticket_key payload db)
  unfolding transition_body record_transition
  transition_body-Returns = Returns-access _ _ _ _ db _ _ λ p xs access.
      Returns-raise_if _ _ _ _ _ λ _. Returns-row _ _ _ _ _ _ λ row here.
        Returns-raise_if _ _ _ _ _ λ _. Returns-raise_if _ _ _ _ _ λ _. Returns-gets _ _ _ _ (
          Returns-raise_if _ _ _ _ _ λ guard. Returns-raise_if _ _ _ _ _ λ _.
            Returns-raise_if _ _ _ _ _ λ _. Returns-modify _ _ _ _ (
              Returns-modify _ _ _ _ (
                Returns-last_row _ _ _ _ IsValid (
                  transitioned-IsValidTickets db p.id env.now payload.target_status row.ticket
                      valid.0 here guard,
                  valid.1,
                  valid.2,
                ))))

  -- `transition_ticket`: if the tables are valid beforehand, they are valid afterwards, whether
  -- the call returns or raises. So it has a time of completion just if it is done and one of
  -- cancellation just if it is cancelled, and a ticket that is open again, and outside the trash,
  -- has an assignee whose membership in the project is not a guest's, or none.
  pub transition_ticket-IsValid :
      IsValid (transition_ticket env actor project_key ticket_key payload db).1
  unfolding transition_ticket
  transition_ticket-IsValid =
      transaction_keeps _ IsValid _ db valid (λ _ _ h. h) transition_body-Returns
