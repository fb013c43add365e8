-- ===== src/Tickets/Create/Keeps.antt =====
-- `create_ticket` keeps the tables valid.
use task_ticket_management_s.Prelude.{
  ℕ, ◌≡◌, refl, ap, ◌∙◌, ◌<◌, ◌+◌, ◌++◌, Bool, true, false, not, Option, none, some, List, [], ◌∷◌,
  ◌&&◌, ◌==◌, any, Text, &&-true, not-false, arith, Bool-cases, inl, inr, ==→eq, is_none, is_some,
  is_none→eq, member, map-In, text_eq, find_first-In, if◌then◌else◌,
}
use task_ticket_management_s.Codes.{TicketType, type_eq}
use task_ticket_management_s.Document.{Document}
use task_ticket_management_s.Store.{Project, ProjectMember, Ticket, Db}
use task_ticket_management_s.Action.{Env}
use task_ticket_management_s.Action.Triple.{
  Returns, Returns-pure, Returns-bind, Returns-raise_if, Returns-or_raise, Returns-or_raise_last,
  Returns-gets, Returns-modify, transaction_keeps,
}
use task_ticket_management_s.Projects.Queries.{project_administrator_count}
use task_ticket_management_s.Projects.Access.{ProjectView, uses_system_administrator_override}
use task_ticket_management_s.Projects.Access.Rules.{Returns-access}
use task_ticket_management_s.Mentions.Rules.{Returns-mentions, Returns-attachments}
use task_ticket_management_s.Tickets.Queries.{TicketRow, ids, parent_ticket, is_assignable}
use task_ticket_management_s.Tickets.Guards.Rules.{IsActiveTicket}
use task_ticket_management_s.Tickets.Transition.Keeps.{assignable_member}
use task_ticket_management_s.Tickets.Create.{
  TicketCreate, validate_parent_shape, requested_parent, parent_has_type, is_bad_assignee,
  parent_id_of, count_up, allocate_number, new_ticket, record_creation, create_body, create_ticket,
}
use task_ticket_management_s.Validity.{
  StandsBelow, HasParentShape, HasParent, IsValid, IsValidRow, IsValidTickets, IsValidMembers,
}
use task_ticket_management_s.Validity.Ids.{find_ticket-In}
use task_ticket_management_s.Validity.Append.{append-IsValidTickets}

pub parent_ticket-facts :
    (db : Db) (pid actor : ℕ) (key : Text) (override : Bool) (u : Ticket)
    → parent_ticket db pid actor key override ≡ some u
    → IsActiveTicket db.tickets pid u
parent_ticket-facts db pid actor key override u h =
    let (m, q) = find_first-In _ db.tickets u h in
    let (front, out) = &&-true _ (is_none u.deleted_at) q in
    let (scoped, _) = &&-true _ (text_eq u.key key) front in
    let (same, _) = &&-true (u.project_id == pid) _ scoped in
    record {
      stands = m;
      active = is_none→eq u.deleted_at out;
      of_project = ==→eq u.project_id pid same;
    }

-- The parent is none if no key is given, and an active ticket of the project otherwise.
abbrev IsRequested : Db → ℕ → Option Text → Option Ticket → Type 0
IsRequested db pid key none = key ≡ none
IsRequested db pid key (some u) = (is_some key ≡ true) × IsActiveTicket db.tickets pid u

requested_parent-Returns :
    (actor : ℕ) (p : ProjectView) (key : Option Text) (db : Db)
    → Returns (λ o d. (d ≡ db) × IsRequested db p.id key o) (requested_parent actor p key db)
unfolding requested_parent
requested_parent-Returns actor p none db = Returns-pure _ none db (refl, refl)
requested_parent-Returns actor p (some key) db = Returns-gets _ _ _ db (
    Returns-or_raise _ _ _ _ db λ u found. Returns-pure _ (some u) db (
      refl,
      (refl, parent_ticket-facts db p.id actor key (uses_system_administrator_override p) u found),
    ))

-- The guards on the types of the ticket and its parent.
abbrev Passes : TicketType → Option Ticket → Type 0
Passes k parent =
    ((type_eq k TicketType.task && is_some parent && not (parent_has_type TicketType.epic parent))
      ≡ false)
    × ((type_eq k TicketType.subtask && not (parent_has_type TicketType.task parent)) ≡ false)

-- The parent's id has the shape that the type wants.
shape_of :
    (k : TicketType) (o : Option Ticket)
    → (k ≡ TicketType.epic → o ≡ none)
    → Passes k o
    → HasParentShape k (parent_id_of o)
shape_of TicketType.epic none epic h = tt
shape_of TicketType.epic (some u) epic h = let e = epic refl in absurd (cc)
shape_of TicketType.task none epic h = tt
shape_of TicketType.task (some u) epic h = tt
shape_of TicketType.subtask none epic h = absurd (cc (h.1))
shape_of TicketType.subtask (some u) epic h = tt

stands_below :
    (k : TicketType) (u : Ticket) (a : TicketType)
    → u.type ≡ a
    → (k ≡ TicketType.epic → some u ≡ none)
    → Passes k (some u)
    → StandsBelow k a
stands_below TicketType.epic u a e epic h = let no = epic refl in absurd (cc)
stands_below TicketType.task u TicketType.epic e epic h = tt
stands_below TicketType.task u TicketType.task e epic h = absurd (cc (h.0, e))
stands_below TicketType.task u TicketType.subtask e epic h = absurd (cc (h.0, e))
stands_below TicketType.subtask u TicketType.task e epic h = tt
stands_below TicketType.subtask u TicketType.epic e epic h = absurd (cc (h.1, e))
stands_below TicketType.subtask u TicketType.subtask e epic h = absurd (cc (h.1, e))

-- The validator lets no epic name a parent.
epic_alone :
    (payload : TicketCreate)
    → validate_parent_shape payload ≡ true
    → payload.type ≡ TicketType.epic
    → payload.parent_key ≡ none
unfolding validate_parent_shape
epic_alone payload h e =
    let (alone, _) =
      &&-true (not (type_eq payload.type TicketType.epic && is_some payload.parent_key)) _ h in
    no_key payload.parent_key (rw e at alone)
  where
    no_key : (o : Option Text) → not (is_some o) ≡ true → o ≡ none
    no_key none a = refl
    no_key (some k) a = cc

-- An epic gets no parent.
no_parent :
    (db : Db) (pid : ℕ) (key : Option Text) (o : Option Ticket)
    → IsRequested db pid key o
    → key ≡ none
    → o ≡ none
no_parent db pid key none h e = refl
no_parent db pid key (some u) h e = absurd (no_key_given key (h.0) e)
  where
    no_key_given : (k : Option Text) → is_some k ≡ true → k ≡ none → ⊥
    no_key_given none a b = cc
    no_key_given (some k) a b = cc

-- A good assignee may be assigned tickets.
pub good_assignee :
    (db : Db) (pid : ℕ) (o : Option ℕ) (u : ℕ)
    → is_bad_assignee db pid o ≡ false
    → o ≡ some u
    → any (is_assignable pid u) db.members ≡ true
good_assignee db pid none u h e = cc
good_assignee db pid (some v) u h e =
    let same : v ≡ u = cc in rw (← same) (assignable_member db pid v (not-false _ h))

-- Allocating a number writes only projects' counters.
allocate_number-Returns :
    (pid : ℕ) (db : Db)
    → Returns
        (λ _ d. d ≡ record db { projects = count_up pid db.projects })
        (allocate_number pid db)
unfolding allocate_number
allocate_number-Returns pid db =
    Returns-gets _ _ _ db
      (Returns-or_raise _ _ _ _ db λ p found. Returns-modify _ _ _ db (Returns-pure _ _ _ refl))

counted_id :
    (pid : ℕ) (p : Project)
    → (if p.id == pid then record p { next_ticket_number = p.next_ticket_number + 1 } else p).id
      ≡ p.id
counted_id pid p = elim (Bool-cases (p.id == pid)) [ inl e ↦ rw e refl | inr e ↦ rw e refl ]

administered :
    (ms : List ProjectMember) (p o : Project)
    → p.id ≡ o.id
    → 0 < project_administrator_count ms o.id
    → 0 < project_administrator_count ms p.id
administered ms p o e h = rw e h

count_up-IsValidMembers :
    (pid : ℕ) (db : Db)
    → IsValidMembers db.projects db.members
    → IsValidMembers (count_up pid db.projects) db.members
count_up-IsValidMembers pid db v = record {
  unique = v.unique;
  administered = λ p m.
      let (o, n, e) = map-In _ db.projects p m in
      administered db.members p o (ap (λ (q : Project). q.id) e ∙ counted_id pid o)
        (v.administered o n);
}

module _ (env : Env) (actor pid : ℕ) (p : ProjectView) (payload : TicketCreate)
    (parent : Option Ticket) (doc : Document) (n : ℕ) (db : Db) where
  new_ticket-IsValidRow :
      (payload.type ≡ TicketType.epic → parent ≡ none)
      → Passes payload.type parent
      → is_bad_assignee db p.id payload.assignee_id ≡ false
      → IsValidRow db.members (new_ticket env actor p payload parent doc n)
  unfolding new_ticket
  new_ticket-IsValidRow epic passes good = record {
    shape = shape_of payload.type parent epic passes;
    deletion_pair = refl;
    completed = refl;
    cancelled = refl;
    positive = omega arith;
    assignee = λ u e _. good_assignee db p.id payload.assignee_id u good e;
  }

new_ticket-HasParent :
    (env : Env) (actor : ℕ) (p : ProjectView) (payload : TicketCreate) (o : Option Ticket)
    (doc : Document) (n : ℕ) (db : Db)
    → IsValidTickets db.tickets db.members
    → (payload.type ≡ TicketType.epic → o ≡ none)
    → Passes payload.type o
    → IsRequested db p.id payload.parent_key o
    → (i : ℕ) → (new_ticket env actor p payload o doc n).parent_id ≡ some i
    → HasParent db.tickets (new_ticket env actor p payload o doc n) i
unfolding new_ticket
new_ticket-HasParent env actor p payload none doc n db v epic passes (_) i e = cc
new_ticket-HasParent env actor p payload (some u) doc n db v epic passes (_, here) i e =
    let same : u.id ≡ i = cc in
    record {
      parent = u;
      found = rw (← same) (find_ticket-In db.tickets u v.unique here.stands);
      same_project = here.of_project;
      above = stands_below payload.type u u.type refl epic passes;
      active = λ _. here.active;
    }

module _ (env : Env) (actor : ℕ) (project_key : Text) (payload : TicketCreate) (db : Db)
    (valid : IsValid db) (accepted : validate_parent_shape payload ≡ true)
    (fresh : member env.new_id (ids db.tickets) ≡ false) where
  -- The writes of the body, when its guards have passed.
  written-IsValid :
      (p : ProjectView) (o : Option Ticket) (doc : Document) (n : ℕ)
      → Passes payload.type o
      → IsRequested db p.id payload.parent_key o
      → is_bad_assignee db p.id payload.assignee_id ≡ false
      → IsValidTickets (db.tickets ++ new_ticket env actor p payload o doc n ∷ []) db.members
  unfolding new_ticket
  written-IsValid p o doc n passes requested good =
      let epic : payload.type ≡ TicketType.epic → o ≡ none =
        λ e. no_parent db p.id payload.parent_key o requested (epic_alone payload accepted e) in
      append-IsValidTickets db.tickets db.members (new_ticket env actor p payload o doc n) valid.0
        fresh (new_ticket-IsValidRow env actor p.id p payload o doc n db epic passes good)
        (new_ticket-HasParent env actor p payload o doc n db valid.0 epic passes requested)

  create_body-Returns :
      Returns (λ (_ : TicketRow) d. IsValid d) (create_body env actor project_key payload db)
  unfolding create_body record_creation
  create_body-Returns = Returns-access _ _ _ _ db _ _ λ p xs access.
      let d0 : Db = record db { audits = xs } in
      Returns-raise_if _ _ _ _ _ λ _.
        Returns-bind _ _ _ _ d0 (requested_parent-Returns actor p payload.parent_key d0)
          λ o d (e, requested). rw e (
            Returns-raise_if _ _ _ _ d0 λ task. Returns-raise_if _ _ _ _ d0 λ subtask.
              Returns-gets _ _ _ d0 (
                Returns-raise_if _ _ _ _ d0 λ good.
                  Returns-mentions env p.id none payload.description_document d0 _ _ λ doc.
                    Returns-attachments env p.id none doc d0 _ _ (
                      Returns-bind _ _ _ _ d0 (allocate_number-Returns p.id d0) λ n d same.
                        rw same (
                          Returns-modify _ _ _ _ (
                            Returns-modify _ _ _ _ (
                              Returns-gets _ _ _ _ (
                                Returns-or_raise_last _ _ _ _ λ r found. (
                                  written-IsValid p o doc n (task, subtask) requested good,
                                  valid.1,
                                  count_up-IsValidMembers p.id db valid.2,
                                ))))))))

  -- `create_ticket`: if the payload has passed its validator and the new ticket's id is not in
  -- use, then if the tables are valid beforehand, they are valid afterwards, whether the call
  -- returns or raises.
  pub create_ticket-IsValid : IsValid (create_ticket env actor project_key payload db).1
  unfolding create_ticket
  create_ticket-IsValid = transaction_keeps _ IsValid _ db valid (λ _ _ h. h) create_body-Returns
