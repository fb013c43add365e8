-- ===== src/Tickets/Update/Keeps.antt =====
-- `update_ticket` keeps the tables valid.
use task_ticket_management_s.Prelude.{
  ℕ, ◌≡◌, refl, sym, ◌∙◌, true, false, not, Option, none, some, List, [], ◌∷◌, ◌&&◌, any, Text,
  not-false, arith, Bool-cases, inl, inr, option_eq, option_eq→eq,
}
use task_ticket_management_s.Codes.{TicketType, type_eq}
use task_ticket_management_s.Document.{Document}
use task_ticket_management_s.Store.{Ticket, Field, Db}
use task_ticket_management_s.Action.{Env, Action, raise}
use task_ticket_management_s.Action.Triple.{
  Returns, Returns-pure, Returns-bind, Returns-raise_if, Returns-or_raise, Returns-gets,
  Returns-modify, transaction_keeps, raised,
}
use task_ticket_management_s.Projects.Queries.{is_terminal, is_open}
use task_ticket_management_s.Projects.Access.{ProjectView, uses_system_administrator_override}
use task_ticket_management_s.Projects.Access.Rules.{Returns-access}
use task_ticket_management_s.Mentions.Rules.{Returns-mentions, Returns-attachments}
use task_ticket_management_s.Tickets.Queries.{TicketRow, is_assignable}
use task_ticket_management_s.Tickets.Snapshots.{put_ticket}
use task_ticket_management_s.Tickets.Guards.Rules.{IsActiveTicket, Returns-row, Returns-last_row}
use task_ticket_management_s.Tickets.Create.{parent_id_of, is_bad_assignee}
use task_ticket_management_s.Tickets.Create.Keeps.{parent_ticket-facts, good_assignee}
use task_ticket_management_s.Tickets.Update.{
  TicketUpdate, expected_parent_type, named_parent, parent_for, apply_update, record_update,
  write_update, unless_empty, update_body, update_ticket,
}
use task_ticket_management_s.Validity.{
  HasParentShape, StandsBelow, HasParent, IsValid, IsValidRow, IsValidTickets,
}
use task_ticket_management_s.Validity.Ids.{find_ticket-In}
use task_ticket_management_s.Validity.Update.{put_ticket-IsValidTickets}

-- The parent that an update may give to a ticket of type `k`.
abbrev IsParentFor : List Ticket → ℕ → TicketType → Option Ticket → Type 0
IsParentFor ts pid k none = HasParentShape k none
IsParentFor ts pid k (some u) = StandsBelow k u.type × IsActiveTicket ts pid u

stands_below_expected :
    (k a : TicketType)
    → (k ≡ TicketType.epic → ⊥)
    → type_eq a (expected_parent_type k) ≡ true
    → StandsBelow k a
stands_below_expected TicketType.epic a aside e = absurd (aside refl)
stands_below_expected TicketType.task TicketType.epic aside e = tt
stands_below_expected TicketType.task TicketType.task aside e = cc
stands_below_expected TicketType.task TicketType.subtask aside e = cc
stands_below_expected TicketType.subtask TicketType.task aside e = tt
stands_below_expected TicketType.subtask TicketType.epic aside e = cc
stands_below_expected TicketType.subtask TicketType.subtask aside e = cc

module _ (actor : ℕ) (p : ProjectView) (t : Ticket) (db : Db) where
  named_parent-Returns :
      (key : Text)
      → (t.type ≡ TicketType.epic → ⊥)
      → Returns
          (λ o d. (d ≡ db) × IsParentFor db.tickets p.id t.type o)
          (named_parent actor p t key db)
  unfolding named_parent
  named_parent-Returns key aside = Returns-gets _ _ _ db (
      Returns-or_raise _ _ _ _ db λ u found. Returns-raise_if _ _ _ _ db λ typed.
        Returns-gets _ _ _ db (
          Returns-or_raise _ _ _ _ db λ cycles ran. Returns-raise_if _ _ _ _ db λ _.
            Returns-pure _ (some u) db (
              refl,
              (
                stands_below_expected t.type u.type aside (not-false _ typed),
                parent_ticket-facts db p.id actor key (uses_system_administrator_override p) u
                    found,
              ),
            )))

  parent_for-Returns :
      (k : TicketType) (key : Option Text)
      → t.type ≡ k
      → Returns
          (λ o d. (d ≡ db) × IsParentFor db.tickets p.id t.type o)
          (parent_for k actor p t key db)
  unfolding parent_for raise
  parent_for-Returns TicketType.epic none e = Returns-pure _ none db (refl, rw e tt)
  parent_for-Returns TicketType.epic (some key) e = raised _ db
  parent_for-Returns TicketType.task none e = Returns-pure _ none db (refl, rw e tt)
  parent_for-Returns TicketType.task (some key) e = named_parent-Returns key (λ f. cc)
  parent_for-Returns TicketType.subtask none e = raised _ db
  parent_for-Returns TicketType.subtask (some key) e = named_parent-Returns key (λ f. cc)

shape_below : (k a : TicketType) (i : ℕ) → StandsBelow k a → HasParentShape k (some i)
shape_below TicketType.epic a i h = h
shape_below TicketType.task a i h = tt
shape_below TicketType.subtask a i h = tt

shape_for :
    (ts : List Ticket) (pid : ℕ) (k : TicketType) (o : Option Ticket)
    → IsParentFor ts pid k o
    → HasParentShape k (parent_id_of o)
shape_for ts pid k none h = h
shape_for ts pid k (some u) h = shape_below k u.type u.id h.0

-- An assignee that the update keeps was valid before, and another one is checked.
kept_assignee :
    (db : Db) (t : Ticket) (pid : ℕ) (o : Option ℕ)
    → IsValidRow db.members t
    → is_open t ≡ true
    → t.project_id ≡ pid
    → (not (option_eq o t.assignee_id) && is_bad_assignee db pid o) ≡ false
    → (u : ℕ) → o ≡ some u
    → any (is_assignable t.project_id u) db.members ≡ true
kept_assignee db t pid o v opened same guard u e = elim (Bool-cases (option_eq o t.assignee_id)) [
  | inl kept ↦ v.assignee u (sym (option_eq→eq o t.assignee_id kept) ∙ e) opened
  | inr other ↦ rw same (good_assignee db pid o u (rw other at guard) e)
]

module _ (db : Db) (pid now : ℕ) (t : Ticket) (payload : TicketUpdate) (o : Option Ticket)
    (doc : Document) where
  updated-IsValidTickets :
      IsValidTickets db.tickets db.members
      → IsActiveTicket db.tickets pid t
      → is_terminal t.status ≡ false
      → IsParentFor db.tickets pid t.type o
      → (not (option_eq payload.assignee_id t.assignee_id)
          && is_bad_assignee db pid payload.assignee_id)
        ≡ false
      → IsValidTickets (put_ticket (apply_update now payload o doc t) db.tickets) db.members
  unfolding apply_update
  updated-IsValidTickets v here unfinished parent guard =
      let old = v.row t here.stands in
      put_ticket-IsValidTickets db.tickets db.members t (apply_update now payload o doc t) v
        (record {
          old_row = here.stands;
          keeps_id = refl;
          same_project = refl;
          same_type = refl;
          was_active = here.active;
          is_active = here.active;
          row = record {
            shape = shape_for db.tickets pid t.type o parent;
            deletion_pair = old.deletion_pair;
            completed = old.completed;
            cancelled = old.cancelled;
            positive = omega arith;
            assignee = λ u e _.
                kept_assignee db t pid payload.assignee_id old (rw (here.active, unfinished) refl)
                  here.of_project guard u e;
          };
          parent = update_parent o parent;
        })
    where
      update_parent :
          (o : Option Ticket)
          → IsParentFor db.tickets pid t.type o
          → (i : ℕ) → parent_id_of o ≡ some i
          → HasParent db.tickets t i
      update_parent none h i e = cc
      update_parent (some u) (above, there) i e =
          let same : u.id ≡ i = cc in
          record {
            parent = u;
            found = rw (← same) (find_ticket-In db.tickets u v.unique there.stands);
            same_project = there.of_project ∙ sym here.of_project;
            above = above;
            active = λ _. there.active;
          }

unless_empty-Returns :
    (Q : TicketRow → Db → Type 0) (fs : List Field) (row : TicketRow) (m : Action TicketRow)
    (db : Db)
    → Q row db
    → Returns Q (m db)
    → Returns Q (unless_empty fs row m db)
unfolding unless_empty
unless_empty-Returns Q [] row m db q h = Returns-pure Q row db q
unless_empty-Returns Q (f ∷ fs) row m db q h = h

module _ (env : Env) (actor : ℕ) (project_key ticket_key : Text) (payload : TicketUpdate) (db : Db)
    (valid : IsValid db) where
  update_body-Returns :
      Returns
        (λ (_ : TicketRow) d. IsValid d)
        (update_body env actor project_key ticket_key payload db)
  unfolding update_body write_update record_update
  update_body-Returns = Returns-access _ _ _ _ db _ _ λ p xs access.
      let d0 : Db = record db { audits = xs } in
      Returns-raise_if _ _ _ _ _ λ _. Returns-row _ _ _ _ _ _ λ row here.
        Returns-raise_if _ _ _ _ _ λ _. Returns-raise_if _ _ _ _ _ λ unfinished.
          Returns-bind _ _ _ _ d0
            (parent_for-Returns actor p row.ticket d0 row.ticket.type payload.parent_key refl)
            λ o d (e, parent). rw e (
              Returns-gets _ _ _ d0 (
                Returns-raise_if _ _ _ _ d0 λ guard.
                  Returns-mentions env p.id (some row.ticket.id) payload.description_document d0 _ _
                    λ doc. Returns-attachments env p.id (some row.ticket.id) doc d0 _ _ (
                      unless_empty-Returns _ _ row _ d0 valid (
                        Returns-gets _ _ _ d0 (
                          Returns-modify _ _ _ _ (
                            Returns-modify _ _ _ _ (
                              Returns-last_row _ _ _ _ IsValid (
                                updated-IsValidTickets d0 p.id env.now row.ticket payload o doc
                                    valid.0 here unfinished parent guard,
                                valid.1,
                                valid.2,
                              ))))))))

  -- `update_ticket`: if the tables are valid beforehand, they are valid afterwards, whether the
  -- call returns or raises. So a new parent is an active ticket of the project of the type above,
  -- and a new assignee takes part in the project.
  pub update_ticket-IsValid : IsValid (update_ticket env actor project_key ticket_key payload db).1
  unfolding update_ticket
  update_ticket-IsValid = transaction_keeps _ IsValid _ db valid (λ _ _ h. h) update_body-Returns
