-- ===== src/Validity/Members.antt =====
-- Valid tickets and members after the memberships change.
use task_ticket_management_s.Prelude.{
  ℕ, ◌≤◌, ◌<◌, ◌≡◌, Bool, true, false, some, List, [], ◌∷◌, ◌++◌, ◌&&◌, ◌==◌, option_eq, arith,
  Bool-cases, inl, inr, In, In-append_left, any, any-In, any_intro, any-false, count_where, &&-true,
}
use task_ticket_management_s.Store.{ProjectMember, Ticket}
use task_ticket_management_s.Projects.Queries.{
  is_open, is_membership, has_active_ticket_assignments,
}
use task_ticket_management_s.Tickets.Queries.{is_assignable}
use task_ticket_management_s.Validity.{IsValidTickets}

-- The open tickets' assignees keep a membership that may be assigned.
abbrev pub KeepsAssignees : List Ticket → List ProjectMember → List ProjectMember → Type 0
KeepsAssignees ts ms ms' =
    (t : Ticket)
    → In t ts
    → (u : ℕ) → t.assignee_id ≡ some u
    → is_open t ≡ true
    → any (is_assignable t.project_id u) ms ≡ true
    → any (is_assignable t.project_id u) ms' ≡ true

pub members-IsValidTickets :
    (ts : List Ticket) (ms ms' : List ProjectMember)
    → IsValidTickets ts ms
    → KeepsAssignees ts ms ms'
    → IsValidTickets ts ms'
members-IsValidTickets ts ms ms' v keeps = record {
  unique = v.unique;
  row = λ t m.
      let old = v.row t m in
      record {
        shape = old.shape;
        deletion_pair = old.deletion_pair;
        completed = old.completed;
        cancelled = old.cancelled;
        positive = old.positive;
        assignee = λ u e opened. keeps t m u e opened (old.assignee u e opened);
      };
  parent = v.parent;
}

pub append-KeepsAssignees :
    (ts : List Ticket) (ms ns : List ProjectMember) → KeepsAssignees ts ms (ms ++ ns)
append-KeepsAssignees ts ms ns t m u e opened h =
    let (n, i, q) = any-In (is_assignable t.project_id u) ms h in
    any_intro (is_assignable t.project_id u) (ms ++ ns) n (In-append_left ms ns n i) q

pub count_where-append :
    (p : ProjectMember → Bool) (ms ns : List ProjectMember)
    → count_where p ms ≤ count_where p (ms ++ ns)
count_where-append p [] ns = omega arith
count_where-append p (m ∷ ms) ns = let rest = count_where-append p ms ns in ground arith

pub count_where-append_fitting :
    (p : ProjectMember → Bool) (ms : List ProjectMember) (n : ProjectMember)
    → p n ≡ true
    → 0 < count_where p (ms ++ n ∷ [])
count_where-append_fitting p [] n h = rw h (omega arith)
count_where-append_fitting p (m ∷ ms) n h =
    let rest = count_where-append_fitting p ms n h in ground arith

-- A user without open tickets in the project holds no assignment that the membership `m` serves.
pub unassigned :
    (ts : List Ticket) (pid : ℕ) (m : ProjectMember) (t : Ticket) (u : ℕ)
    → has_active_ticket_assignments ts pid m.user_id ≡ false
    → m.project_id ≡ pid
    → In t ts
    → t.assignee_id ≡ some u
    → is_open t ≡ true
    → is_assignable t.project_id u m ≡ false
unassigned ts pid m t u free here i e opened = elim (Bool-cases (is_assignable t.project_id u m)) [
  | inl h ↦
      let (same, _) = &&-true (is_membership t.project_id u m) _ h in
      let (project, user) = &&-true (m.project_id == t.project_id) (m.user_id == u) same in
      let none_such =
        any-false
          (λ (s : Ticket).
            (s.project_id == pid) && option_eq s.assignee_id (some m.user_id) && is_open s)
          ts t free i in
      let shown : ((t.project_id == pid) && (u == m.user_id) && true) ≡ false =
        rw (e, opened) at none_such in
      absurd (ground arith)
  | inr h ↦ h
]
