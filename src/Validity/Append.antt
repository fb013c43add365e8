-- ===== src/Validity/Append.antt =====
-- A valid tickets' table after a new row is added.
use task_ticket_management_s.Prelude.{
  ℕ, ◌≡◌, refl, ap, false, some, List, [], ◌∷◌, ◌++◌, inl, inr, In-append, member, Bool-cases, ◌==◌,
}
use task_ticket_management_s.Store.{Ticket, ProjectMember}
use task_ticket_management_s.Tickets.Queries.{find_ticket, ids}
use task_ticket_management_s.Validity.{HasParent, IsValidRow, IsValidTickets}
use task_ticket_management_s.Validity.Ids.{NoDup-append}

ids-append : (ts : List Ticket) (n : Ticket) → ids (ts ++ n ∷ []) ≡ ids ts ++ n.id ∷ []
ids-append [] n = refl
ids-append (t ∷ ts) n = ap (λ (is : List ℕ). t.id ∷ is) (ids-append ts n)

find_ticket-append :
    (i : ℕ) (ts : List Ticket) (n u : Ticket)
    → find_ticket i ts ≡ some u
    → find_ticket i (ts ++ n ∷ []) ≡ some u
find_ticket-append i [] n u h = cc
find_ticket-append i (t ∷ ts) n u h = elim (Bool-cases (t.id == i)) [
  | inl same ↦ rw same (rw same at h)
  | inr other ↦ rw other (find_ticket-append i ts n u (rw other at h))
]

HasParent-append :
    (ts : List Ticket) (n t : Ticket) (p : ℕ) → HasParent ts t p → HasParent (ts ++ n ∷ []) t p
HasParent-append ts n t p h = record {
  parent = h.parent;
  found = find_ticket-append p ts n h.parent h.found;
  same_project = h.same_project;
  above = h.above;
  active = h.active;
}

pub append-IsValidTickets :
    (ts : List Ticket) (ms : List ProjectMember) (n : Ticket)
    → IsValidTickets ts ms
    → member n.id (ids ts) ≡ false
    → IsValidRow ms n
    → ((p : ℕ) → n.parent_id ≡ some p → HasParent ts n p)
    → IsValidTickets (ts ++ n ∷ []) ms
append-IsValidTickets ts ms n v fresh row parent = record {
  unique = rw (ids-append ts n) (NoDup-append n.id (ids ts) v.unique fresh);
  row = λ t m. elim (In-append ts (n ∷ []) t m) [
    | inl old ↦ v.row t old
    | inr (inl e) ↦ rw e row
    | inr (inr empty) ↦ absurd empty
  ];
  parent = λ t m p e. HasParent-append ts n t p (elim (In-append ts (n ∷ []) t m) [
    | inl old ↦ v.parent t old p e
    | inr (inl same) ↦ rw same (parent p (rw same at e))
    | inr (inr empty) ↦ absurd empty
  ]);
}
