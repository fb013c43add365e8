-- ===== src/Tickets/Relations/Keeps.antt =====
-- `create_ticket_relation` and `delete_ticket_relation` keep the tables valid.
use task_ticket_management_s.Prelude.{
  ℕ, ◌≡◌, ◌≢◌, ◌<◌, refl, sym, ◌∙◌, Bool, true, false, List, Text, ◌&&◌, ◌==◌, any, any_ext,
  find_first-In, In, arith, Bool-cases, inl, inr, In-map, if◌then◌else◌, leb,
}
use task_ticket_management_s.Codes.{RelationType}
use task_ticket_management_s.Store.{Ticket, ProjectMember, TicketRelation, AuditAction, Db}
use task_ticket_management_s.Action.{Env, Action, ◌>>=◌}
use task_ticket_management_s.Action.Triple.{
  Returns, Returns-bind, Returns-pure, Returns-raise_if, Returns-or_raise, Returns-gets,
  Returns-modify, Returns-modify_last, transaction_keeps,
}
use task_ticket_management_s.Projects.Access.{ProjectView, uses_system_administrator_override}
use task_ticket_management_s.Projects.Access.Rules.{Returns-access}
use task_ticket_management_s.Tickets.Queries.{TicketRow, project_scope, relation_exists}
use task_ticket_management_s.Tickets.Snapshots.{put_ticket}
use task_ticket_management_s.Tickets.Guards.Rules.{
  IsActiveTicket, ticket_row-facts, ticket_row_by_id-facts, ticket_row_by_id-id, ticket_row-scope,
  Returns-row, Returns-last_row,
}
use task_ticket_management_s.Tickets.Relations.{
  TicketRelationCreate, touch, order_endpoints, new_relation, record_endpoint, change_endpoints,
  create_relation_body, create_ticket_relation, relation_endpoint_rows, delete_relation_body,
  delete_ticket_relation,
}
use task_ticket_management_s.Validity.{
  IsValid, IsValidRow, IsValidTickets, IsValidRelation, same_endpoints,
}
use task_ticket_management_s.Validity.Update.{put_ticket-IsValidTickets}
use task_ticket_management_s.Validity.Relations.{append-IsValidRelations, select-IsValidRelations}

module _ (now : ℕ) (t : Ticket) where
  touch-id : (touch now t).id ≡ t.id
  unfolding touch
  touch-id = ground arith

  touch-project_id : (touch now t).project_id ≡ t.project_id
  unfolding touch
  touch-project_id = ground arith

  touch-type : (touch now t).type ≡ t.type
  unfolding touch
  touch-type = ground arith

  touch-deleted_at : (touch now t).deleted_at ≡ t.deleted_at
  unfolding touch
  touch-deleted_at = ground arith

  touch-parent_id : (touch now t).parent_id ≡ t.parent_id
  unfolding touch
  touch-parent_id = ground arith

  touch-IsValidRow : (ms : List ProjectMember) → IsValidRow ms t → IsValidRow ms (touch now t)
  unfolding touch
  touch-IsValidRow ms v = elim (Bool-cases (t.updated_at == now)) [
    | inl same ↦ rw same v
    | inr changed ↦ rw changed (record {
      shape = v.shape;
      deletion_pair = v.deletion_pair;
      completed = v.completed;
      cancelled = v.cancelled;
      positive = omega arith;
      assignee = v.assignee;
    })
  ]

  touched-IsValidTickets :
      (ts : List Ticket) (ms : List ProjectMember) (pid : ℕ)
      → IsValidTickets ts ms
      → IsActiveTicket ts pid t
      → IsValidTickets (put_ticket (touch now t) ts) ms
  touched-IsValidTickets ts ms pid v here =
      put_ticket-IsValidTickets ts ms t (touch now t) v (record {
        old_row = here.stands;
        keeps_id = touch-id;
        same_project = touch-project_id;
        same_type = touch-type;
        was_active = here.active;
        is_active = touch-deleted_at ∙ here.active;
        row = touch-IsValidRow ms (v.row t here.stands);
        parent = λ p e. v.parent t here.stands p (sym touch-parent_id ∙ e);
      })

-- A row that another row's update leaves alone is still active.
other_row_stays :
    (ts : List Ticket) (pid : ℕ) (c t : Ticket)
    → (t.id == c.id) ≡ false
    → IsActiveTicket ts pid t
    → IsActiveTicket (put_ticket c ts) pid t
other_row_stays ts pid c t e here = record {
  stands =
      let m : In (if t.id == c.id then c else t) (put_ticket c ts) = In-map _ ts t here.stands in
      rw e at m;
  active = here.active;
  of_project = here.of_project;
}

module _ (env : Env) (actor : ℕ) (action : AuditAction) (relation : TicketRelation)
    (s t : TicketRow) (before db : Db) (pid : ℕ) where
  -- The rule for the writes to two endpoints.
  Returns-change_endpoints :
      {B : Type 0} (Q : B → Db → Type 0) (k : Unit {0} → Action B)
      → IsValid db
      → IsActiveTicket db.tickets pid s.ticket
      → IsActiveTicket db.tickets pid t.ticket
      → s.ticket.id ≢ t.ticket.id
      → ((d : Db) → IsValid d → Returns Q (k tt d))
      → Returns Q ((change_endpoints env actor action relation s t before >>= k) db)
  unfolding change_endpoints record_endpoint
  Returns-change_endpoints Q k valid source target different next =
      let one = touched-IsValidTickets env.now s.ticket db.tickets db.members pid valid.0 source in
      let apart : (t.ticket.id == (touch env.now s.ticket).id) ≡ false =
        rw touch-id (ground arith) in
      let still = other_row_stays db.tickets pid (touch env.now s.ticket) t.ticket apart target in
      let two = touched-IsValidTickets env.now t.ticket _ db.members pid one still in
      Returns-bind Q (λ _ d. IsValid d) _ k db
        (Returns-modify _ _ _ _
          (Returns-modify _ _ _ _ (Returns-modify_last _ _ _ (two, valid.1, valid.2))))
        (λ _ d h. next d h)

-- What the endpoints of a new relation satisfy.
record AreEndpoints (ts : List Ticket) (pid : ℕ) (kind : RelationType) (e : TicketRow × TicketRow)
    : Type 0 where
  source : IsActiveTicket ts pid e.0.ticket
  target : IsActiveTicket ts pid e.1.ticket
  different : e.0.ticket.id ≢ e.1.ticket.id
  canonical : kind ≡ RelationType.related → e.0.ticket.id < e.1.ticket.id

order_endpoints-AreEndpoints :
    (ts : List Ticket) (pid : ℕ) (kind : RelationType) (c t : TicketRow)
    → IsActiveTicket ts pid c.ticket
    → IsActiveTicket ts pid t.ticket
    → (t.ticket.id == c.ticket.id) ≡ false
    → AreEndpoints ts pid kind (order_endpoints kind c t)
unfolding order_endpoints
order_endpoints-AreEndpoints ts pid RelationType.related c t hc ht apart =
    elim (Bool-cases (leb c.ticket.id t.ticket.id)) [
      | inl le ↦ rw le (record {
        source = hc;
        target = ht;
        different = ground arith;
        canonical = λ _. ground arith;
      })
      | inr gt ↦ rw gt (record {
        source = ht;
        target = hc;
        different = ground arith;
        canonical = λ _. ground arith;
      })
    ]
order_endpoints-AreEndpoints ts pid RelationType.depends_on c t hc ht apart = record {
  source = hc;
  target = ht;
  different = ground arith;
  canonical = λ e. cc;
}

and_true : (b : Bool) → (b && true) ≡ b
and_true true = refl
and_true false = refl

module _ (env : Env) (actor pid : ℕ) (kind : RelationType) (db : Db)
    (e : TicketRow × TicketRow) where
  new_relation-IsValid :
      AreEndpoints db.tickets pid kind e
      → IsValidRelation (new_relation env actor pid kind e.0.ticket e.1.ticket)
  unfolding new_relation
  new_relation-IsValid h = record {
    different = h.different;
    canonical = h.canonical;
    kind = ground arith;
  }

  -- The test for a conflict finds every row that the UNIQUE constraint would refuse.
  no_conflict :
      (override : Bool)
      → project_scope db pid actor override ≡ true
      → relation_exists db pid actor e.0.ticket.id e.1.ticket.id kind override ≡ false
      → any
          (λ r. same_endpoints r (new_relation env actor pid kind e.0.ticket e.1.ticket))
          db.relations
        ≡ false
  unfolding new_relation
  no_conflict override scope h =
      any_ext _ _ db.relations
        (λ r. let split = and_true (r.project_id == pid) in rw scope (rw split refl))
      ∙ h

module _ (env : Env) (actor : ℕ) (project_key ticket_key : Text) (payload : TicketRelationCreate)
    (db : Db) (valid : IsValid db) where
  create_relation-Returns :
      Returns
        (λ (_ : TicketRow) d. IsValid d)
        (create_relation_body env actor project_key ticket_key payload db)
  unfolding create_relation_body
  create_relation-Returns = Returns-access _ _ _ _ db _ _ λ p xs access.
      Returns-raise_if _ _ _ _ _ λ _. Returns-row _ _ _ _ _ _ λ current here.
        Returns-raise_if _ _ _ _ _ λ _. Returns-gets _ _ _ _ (
          Returns-or_raise _ _ _ _ _ λ target found. Returns-raise_if _ _ _ _ _ λ apart.
            Returns-raise_if _ _ _ _ _ λ _. Returns-raise_if _ _ _ _ _ λ _. Returns-gets _ _ _ _ (
              Returns-raise_if _ _ _ _ _ λ absent. Returns-modify _ _ _ _ (
                let d0 : Db = record db { audits = xs } in
                let e = order_endpoints payload.relation_kind current target in
                let override = uses_system_administrator_override p in
                let there =
                  ticket_row-facts d0 p.id actor payload.target_ticket_key override target found in
                let scope =
                  ticket_row-scope d0 p.id actor payload.target_ticket_key override target found in
                let ends =
                  order_endpoints-AreEndpoints db.tickets p.id payload.relation_kind current target
                    here there apart in
                let new = new_relation-IsValid env actor p.id payload.relation_kind d0 e ends in
                let related =
                  append-IsValidRelations db.relations _ valid.1 new
                    (no_conflict env actor p.id payload.relation_kind d0 e override scope absent) in
                Returns-change_endpoints _ _ _ _ _ _ _ _ p.id _ _ (valid.0, related, valid.2)
                  ends.source ends.target ends.different
                  (λ d h. Returns-last_row _ _ _ _ IsValid h))))

  -- `create_ticket_relation`: if the tables are valid beforehand, they are valid afterwards,
  -- whether the call returns or raises. So the new relation has two endpoints, in the canonical
  -- order if it is a `RELATED` one, and no other relation of the type has the same ones.
  pub create_ticket_relation-IsValid :
      IsValid (create_ticket_relation env actor project_key ticket_key payload db).1
  unfolding create_ticket_relation
  create_ticket_relation-IsValid =
      transaction_keeps _ IsValid _ db valid (λ _ _ h. h) create_relation-Returns

relation_endpoint_rows-Returns :
    (actor : ℕ) (p : ProjectView) (r : TicketRelation) (db : Db)
    → Returns
        (λ e d.
          (d ≡ db)
          × IsActiveTicket db.tickets p.id e.0.ticket
          × IsActiveTicket db.tickets p.id e.1.ticket
          × (e.0.ticket.id ≡ r.source_ticket_id)
          × (e.1.ticket.id ≡ r.target_ticket_id))
        (relation_endpoint_rows actor p r db)
unfolding relation_endpoint_rows
relation_endpoint_rows-Returns actor p r db =
    let override = uses_system_administrator_override p in
    Returns-gets _ _ _ db (
      Returns-or_raise _ _ _ _ db λ s found_s. Returns-gets _ _ _ db (
        Returns-or_raise _ _ _ _ db λ t found_t. Returns-pure _ _ db (
          refl,
          ticket_row_by_id-facts db p.id actor r.source_ticket_id override s found_s,
          ticket_row_by_id-facts db p.id actor r.target_ticket_id override t found_t,
          ticket_row_by_id-id db p.id actor r.source_ticket_id override s found_s,
          ticket_row_by_id-id db p.id actor r.target_ticket_id override t found_t,
        )))

module _ (env : Env) (actor : ℕ) (project_key ticket_key : Text) (relation_key expected : ℕ)
    (db : Db) (valid : IsValid db) where
  delete_relation-Returns :
      Returns
        (λ (_ : TicketRow) d. IsValid d)
        (delete_relation_body env actor project_key ticket_key relation_key expected db)
  unfolding delete_relation_body
  delete_relation-Returns = Returns-access _ _ _ _ db _ _ λ p xs access.
      Returns-raise_if _ _ _ _ _ λ _. Returns-row _ _ _ _ _ _ λ current here.
        Returns-raise_if _ _ _ _ _ λ _. Returns-gets _ _ _ _ (
          Returns-or_raise _ _ _ _ _ λ relation found.
            let d0 : Db = record db { audits = xs } in
            Returns-bind _ _ _ _ _ (relation_endpoint_rows-Returns actor p relation d0)
              λ e d (same, source, target, is_source, is_target). rw same (
                Returns-raise_if _ _ _ _ _ λ _. Returns-raise_if _ _ _ _ _ λ _.
                  Returns-gets _ _ _ _ (
                    Returns-modify _ _ _ _ (
                      let (stands, _) = find_first-In _ db.relations relation found in
                      let related = valid.1.each relation stands in
                      Returns-change_endpoints _ _ _ _ _ _ _ _ p.id _ _
                        (valid.0, select-IsValidRelations _ db.relations valid.1, valid.2) source
                        target (rw (is_source, is_target) related.different)
                        (λ d h. Returns-last_row _ _ _ _ IsValid h)))))

  -- `delete_ticket_relation`: if the tables are valid beforehand, they are valid afterwards,
  -- whether the call returns or raises.
  pub delete_ticket_relation-IsValid :
      IsValid (delete_ticket_relation env actor project_key ticket_key relation_key expected db).1
  unfolding delete_ticket_relation
  delete_ticket_relation-IsValid =
      transaction_keeps _ IsValid _ db valid (λ _ _ h. h) delete_relation-Returns
