-- ===== src/Tickets/Trash/Hierarchy.antt =====
-- The hierarchy that a move to the trash takes along: it is closed under active children.
use task_ticket_management_s.Prelude.{
  ℕ, ◌≡◌, refl, sym, ap, ◌∙◌, true, Option, none, some, List, ◌&&◌, ◌||◌, ◌==◌, In, &&-true,
  &&_intro, ||-true, any-In, any_intro, ||_intro_left, ||_intro_right, inl, inr, ==→eq, ==_refl,
  eq→==, is_none, is_none→eq, option_eq→eq, member, map-In, In-map, select, select-In, In-select,
}
use task_ticket_management_s.Codes.{TicketType, type_eq, type_eq→eq}
use task_ticket_management_s.Store.{Ticket, ProjectMember}
use task_ticket_management_s.Tickets.Queries.{
  find_ticket, ids, is_child_of, parent_in, active_task_ids, hierarchy_condition,
  in_active_hierarchy,
}
use task_ticket_management_s.Validity.{StandsBelow, IsValidTickets}
use task_ticket_management_s.Validity.Ids.{NoDup, find_ticket-In, same_id}

nothing_below_subtask : (a : TicketType) → ¬ StandsBelow a TicketType.subtask
nothing_below_subtask TicketType.epic h = h
nothing_below_subtask TicketType.task h = h
nothing_below_subtask TicketType.subtask h = h

below_task : (a : TicketType) → StandsBelow a TicketType.task → a ≡ TicketType.subtask
below_task TicketType.epic h = absurd h
below_task TicketType.task h = absurd h
below_task TicketType.subtask h = refl

below_epic : (a : TicketType) → StandsBelow a TicketType.epic → a ≡ TicketType.task
below_epic TicketType.epic h = absurd h
below_epic TicketType.task h = refl
below_epic TicketType.subtask h = absurd h

-- Nothing stands two levels below a task.
two_below_task : (a b : TicketType) → StandsBelow a b → ¬ StandsBelow b TicketType.task
two_below_task a b h k = nothing_below_subtask a (rw (below_task b k) at h)

child-eq : (i : ℕ) (t : Ticket) → is_child_of i t ≡ true → t.parent_id ≡ some i
child-eq i t h = option_eq→eq t.parent_id (some i) h

pub eq-child : (i : ℕ) (t : Ticket) → t.parent_id ≡ some i → is_child_of i t ≡ true
eq-child i t e = rw e (==_refl i)

-- Whether a ticket of the table is among rows chosen from it is decided by its id.
pub member-ids :
    (ts chosen : List Ticket) (t : Ticket)
    → NoDup (ids ts)
    → ((u : Ticket) → In u chosen → In u ts)
    → In t ts
    → member t.id (ids chosen) ≡ true
    → In t chosen
member-ids ts chosen t unique sub m h =
    let (i, j, e) = any-In (λ (x : ℕ). x == t.id) (ids chosen) h in
    let (u, n, f) = map-In (λ (u : Ticket). u.id) chosen i j in
    let same : t ≡ u = same_id ts t u unique m (sub u n) (sym (sym f ∙ ==→eq i t.id e)) in rw same n

pub ids-member : (chosen : List Ticket) (t : Ticket) → In t chosen → member t.id (ids chosen) ≡ true
ids-member chosen t m =
    any_intro (λ (x : ℕ). x == t.id) (ids chosen) t.id (In-map (λ (u : Ticket). u.id) chosen t m)
      (==_refl t.id)

module _ (ts : List Ticket) (ms : List ProjectMember) (v : IsValidTickets ts ms) where
  -- A child stands below whichever row its `parent_id` names.
  pub below_parent :
      (u w : Ticket) → In u ts → In w ts → u.parent_id ≡ some w.id → StandsBelow u.type w.type
  below_parent u w m n e =
      let h = v.parent u m w.id e in
      let found : find_ticket w.id ts ≡ some w = find_ticket-In ts w v.unique n in
      let both : some w ≡ some h.parent = sym found ∙ h.found in
      let same : w ≡ h.parent = cc in rw same h.above

  module _ (pid : ℕ) (root u t : Ticket) (r : In root ts) (m : In u ts) (n : In t ts)
      (e : t.parent_id ≡ some u.id) where
    root_case :
        (k : TicketType)
        → root.type ≡ k
        → (u.id == root.id) ≡ true
        → StandsBelow t.type k × (is_child_of root.id t ≡ true)
    root_case k is h =
        let same : u ≡ root = same_id ts u root v.unique m r (==→eq u.id root.id h) in
        let below = below_parent t u n m e in
        (rw (← is, ← same) below, eq-child root.id t (e ∙ ap (λ (x : Ticket). some x.id) same))

    child_case :
        (k : TicketType) → root.type ≡ k → is_child_of root.id u ≡ true → StandsBelow u.type k
    child_case k is h = rw (← is) (below_parent u root m r (child-eq root.id u h))

    -- A task of the root that is active is among the subquery's ids.
    task_listed :
        u.project_id ≡ pid
        → u.deleted_at ≡ none
        → is_child_of root.id u ≡ true
        → u.type ≡ TicketType.task
        → parent_in (active_task_ids ts pid root.id) t ≡ true
    task_listed of_project active child is =
        let wanted = λ (x : Ticket).
          (x.project_id == pid)
          && is_child_of root.id x
          && type_eq x.type TicketType.task
          && is_none x.deleted_at in
        let fits : wanted u ≡ true = rw (eq→== u.project_id pid of_project, child, is, active) in
        any_intro (λ i. is_child_of i t) (active_task_ids ts pid root.id) u.id
          (In-map (λ (x : Ticket). x.id) (select wanted ts) u (In-select wanted ts u m fits))
          (eq-child u.id t e)

    -- A ticket whose parent is one of those tasks is a subtask, and has no children.
    listed_case : parent_in (active_task_ids ts pid root.id) u ≡ true → ⊥
    listed_case h =
        let (i, j, c) = any-In (λ i. is_child_of i u) (active_task_ids ts pid root.id) h in
        let (w, q, f) = map-In (λ (x : Ticket). x.id) _ i j in
        let (o, g) = select-In _ ts w q in
        let is_task =
          type_eq→eq w.type TicketType.task
            (&&-true ((w.project_id == pid) && is_child_of root.id w)
              (type_eq w.type TicketType.task) (&&-true _ (is_none w.deleted_at) g).0).1 in
        let below = below_parent u w m o (child-eq i u c ∙ ap (λ (x : ℕ). some x) f) in
        two_below_task t.type u.type (below_parent t u n m e) (rw is_task at below)

    -- An active child of a ticket of the hierarchy is in the hierarchy.
    closed :
        (k : TicketType)
        → root.type ≡ k
        → u.project_id ≡ pid
        → u.deleted_at ≡ none
        → hierarchy_condition ts pid root.id k u ≡ true
        → hierarchy_condition ts pid root.id k t ≡ true
    closed TicketType.subtask is of_project active h =
        absurd (nothing_below_subtask t.type (root_case TicketType.subtask is h).0)
    closed TicketType.task is of_project active h = elim (||-true (u.id == root.id) _ h) [
      | inl at_root ↦ ||_intro_right (t.id == root.id) _ (root_case TicketType.task is at_root).1
      | inr child ↦ absurd (
          two_below_task t.type u.type (below_parent t u n m e)
            (child_case TicketType.task is child))
    ]
    closed TicketType.epic is of_project active h =
        elim (||-true ((u.id == root.id) || is_child_of root.id u) _ h) [
          | inl near ↦ elim (||-true (u.id == root.id) _ near) [
            | inl at_root ↦
                ||_intro_left _ _
                  (||_intro_right (t.id == root.id) _ (root_case TicketType.epic is at_root).1)
            | inr child ↦ ||_intro_right _ _ (
                task_listed of_project active child
                  (below_epic u.type (child_case TicketType.epic is child)))
          ]
          | inr listed ↦ absurd (listed_case listed)
        ]

  -- In a valid table, the rows that `active_ticket_hierarchy` selects for a root are closed under
  -- children: a ticket outside the trash whose parent is selected, and whose project is the
  -- parent's, is selected too.
  pub in_active_hierarchy-closed :
      (pid : ℕ) (root u t : Ticket)
      → In root ts
      → In u ts
      → In t ts
      → t.parent_id ≡ some u.id
      → u.project_id ≡ t.project_id
      → t.deleted_at ≡ none
      → in_active_hierarchy ts pid root u ≡ true
      → in_active_hierarchy ts pid root t ≡ true
  in_active_hierarchy-closed pid root u t r m n e same active h =
      let (first, condition) = &&-true ((u.project_id == pid) && is_none u.deleted_at) _ h in
      let (project, out) = &&-true (u.project_id == pid) (is_none u.deleted_at) first in
      let of_project = ==→eq u.project_id pid project in
      let reached =
        closed pid root u t r m n e root.type refl of_project (is_none→eq u.deleted_at out)
          condition in
      &&_intro _ _
        (&&_intro _ _ (eq→== t.project_id pid (sym same ∙ of_project))
          (ap (λ (o : Option ℕ). is_none o) active))
        reached
