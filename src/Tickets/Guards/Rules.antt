-- ===== src/Tickets/Guards/Rules.antt =====
-- What the ticket services know of a row that they have read, and the rules for reading it.
use task_ticket_management_s.Prelude.{
  ℕ, ◌≡◌, refl, Bool, true, Option, none, some, List, Text, strip, upper, In, find_first-In,
  &&-true, ==→eq, is_none, is_none→eq, text_eq, ◌&&◌, ◌==◌,
}
use task_ticket_management_s.Store.{Ticket, Db}
use task_ticket_management_s.Action.{Action, ◌>>=◌}
use task_ticket_management_s.Action.Triple.{
  Returns, Returns-bind, Returns-gets, Returns-or_raise_last, Returns-weaken,
}
use task_ticket_management_s.Projects.Access.{ProjectView, uses_system_administrator_override}
use task_ticket_management_s.Tickets.Queries.{
  TicketRow, to_row, ticket_query, ticket_row, ticket_row_by_id, project_scope,
}
use task_ticket_management_s.Tickets.Guards.{get_ticket_row}

-- The ticket stands in the table, in the project, and outside the trash.
pub record IsActiveTicket (ts : List Ticket) (pid : ℕ) (t : Ticket) : Type 0 where
  pub stands : In t ts
  pub active : t.deleted_at ≡ none
  pub of_project : t.project_id ≡ pid

pub to_row-some :
    (ts : List Ticket) (o : Option Ticket) (r : TicketRow)
    → to_row ts o ≡ some r
    → o ≡ some r.ticket
to_row-some ts none r h = cc
to_row-some ts (some t) r h = cc

ticket_query-facts :
    (db : Db) (pid actor : ℕ) (override also : Bool) (t : Ticket)
    → In t db.tickets
    → (ticket_query db pid actor override t && also) ≡ true
    → IsActiveTicket db.tickets pid t
ticket_query-facts db pid actor override also t m h =
    let (query, _) = &&-true (ticket_query db pid actor override t) also h in
    let (scoped, _) = &&-true (is_none t.deleted_at && (t.project_id == pid) && _) _ query in
    let (here, _) = &&-true (is_none t.deleted_at && (t.project_id == pid)) _ scoped in
    let (out, same) = &&-true (is_none t.deleted_at) (t.project_id == pid) here in
    record {
      stands = m;
      active = is_none→eq t.deleted_at out;
      of_project = ==→eq t.project_id pid same;
    }

pub ticket_row-facts :
    (db : Db) (pid actor : ℕ) (key : Text) (override : Bool) (r : TicketRow)
    → ticket_row db pid actor key override ≡ some r
    → IsActiveTicket db.tickets pid r.ticket
ticket_row-facts db pid actor key override r h =
    let (m, q) = find_first-In _ db.tickets r.ticket (to_row-some db.tickets _ r h) in
    ticket_query-facts db pid actor override (text_eq r.ticket.key key) r.ticket m q

pub ticket_row_by_id-facts :
    (db : Db) (pid actor i : ℕ) (override : Bool) (r : TicketRow)
    → ticket_row_by_id db pid actor i override ≡ some r
    → IsActiveTicket db.tickets pid r.ticket
ticket_row_by_id-facts db pid actor i override r h =
    let (m, q) = find_first-In _ db.tickets r.ticket (to_row-some db.tickets _ r h) in
    ticket_query-facts db pid actor override (r.ticket.id == i) r.ticket m q

module _ (actor : ℕ) (p : ProjectView) (key : Text) (db : Db) where
  get_ticket_row-Returns :
      Returns
        (λ r d. (d ≡ db) × IsActiveTicket db.tickets p.id r.ticket)
        (get_ticket_row actor p key db)
  unfolding get_ticket_row
  get_ticket_row-Returns = Returns-gets _ _ _ db (
      Returns-or_raise_last _ _ _ db λ r found. (
        refl,
        ticket_row-facts db p.id actor (upper (strip key)) (uses_system_administrator_override p) r
            found,
      ))

  -- The rule for reading a row.
  pub Returns-row :
      {B : Type 0} (Q : B → Db → Type 0) (k : TicketRow → Action B)
      → ((r : TicketRow) → IsActiveTicket db.tickets p.id r.ticket → Returns Q (k r db))
      → Returns Q ((get_ticket_row actor p key >>= k) db)
  Returns-row Q k next =
      Returns-bind Q _ _ k db get_ticket_row-Returns λ r d (e, facts). rw e (next r facts)

  -- The rule for a block that ends by reading a row.
  pub Returns-last_row :
      (P : Db → Type 0) → P db → Returns (λ (_ : TicketRow) d. P d) (get_ticket_row actor p key db)
  Returns-last_row P h = Returns-weaken _ _ _ get_ticket_row-Returns λ r d (e, _). rw e h

-- A row that was read lies in a project that the actor may read.
pub ticket_row-scope :
    (db : Db) (pid actor : ℕ) (key : Text) (override : Bool) (r : TicketRow)
    → ticket_row db pid actor key override ≡ some r
    → project_scope db pid actor override ≡ true
ticket_row-scope db pid actor key override r h =
    let (_, q) = find_first-In _ db.tickets r.ticket (to_row-some db.tickets _ r h) in
    let (query, _) = &&-true (ticket_query db pid actor override r.ticket) _ q in
    let (scoped, _) =
      &&-true
        (is_none r.ticket.deleted_at
          && (r.ticket.project_id == pid)
          && project_scope db pid actor override)
        _ query in
    (&&-true (is_none r.ticket.deleted_at && (r.ticket.project_id == pid)) _ scoped).1

pub ticket_row_by_id-id :
    (db : Db) (pid actor i : ℕ) (override : Bool) (r : TicketRow)
    → ticket_row_by_id db pid actor i override ≡ some r
    → r.ticket.id ≡ i
ticket_row_by_id-id db pid actor i override r h =
    let (_, q) = find_first-In _ db.tickets r.ticket (to_row-some db.tickets _ r h) in
    ==→eq r.ticket.id i
      (&&-true (ticket_query db pid actor override r.ticket) (r.ticket.id == i) q).1
