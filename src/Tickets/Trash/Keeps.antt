-- ===== src/Tickets/Trash/Keeps.antt =====
-- `move_ticket_to_trash` and `restore_ticket_trash_batch` keep the tables valid: no active ticket is
-- left below a deleted one.
use task_ticket_management_s.Prelude.{
  ℕ, ◌≡◌, refl, sym, ap, ◌∙◌, Bool, true, false, none, some, List, [], ◌∷◌, any, In, Text, arith,
  Bool-cases, inl, inr, member, select, select-In, In-select, In-order_by, order_by-In, order_by,
  if◌then◌else◌,
}
use task_ticket_management_s.Codes.{HistoryEventType}
use task_ticket_management_s.Store.{Ticket, ProjectMember, AuditAction, AuditLog, TicketHistory, Db}
use task_ticket_management_s.Action.{Env}
use task_ticket_management_s.Action.Triple.{
  Returns, Returns-raise_if, Returns-or_raise_last, Returns-gets, Returns-modify, transaction_keeps,
}
use task_ticket_management_s.Projects.Access.Rules.{Returns-access}
use task_ticket_management_s.Tickets.Queries.{
  find_ticket, ids, by_number, in_active_hierarchy, is_assignable,
}
use task_ticket_management_s.Tickets.Guards.Rules.{Returns-row}
use task_ticket_management_s.Tickets.Trash.{
  TicketTrashBatchView, trash_ticket, restore_ticket, record_hierarchy, trash_body,
  move_ticket_to_trash,
}
use task_ticket_management_s.Tickets.Trash.Hierarchy.{
  member-ids, ids-member, in_active_hierarchy-closed,
}
use task_ticket_management_s.Validity.{HasParent, IsValid, IsValidRow, IsValidTickets}
use task_ticket_management_s.Validity.Update.{
  IsUpdate, update-IsValidTickets, find_ticket-row, HasParent-active,
}

-- The history and audit rows leave every other table as it is.
module _ (env : Env) (actor : ℕ) (kind : HistoryEventType) (action : AuditAction) (batch : ℕ)
    (key : Text) (change : Ticket → Ticket) (before : Db) where
  record_hierarchy_only :
      (ts : List Ticket) (db : Db)
      → (hs : List TicketHistory) × (xs : List AuditLog) × (record_hierarchy env actor kind action
            batch key change before ts db
          ≡ record db { histories = hs; audits = xs })
  unfolding record_hierarchy
  record_hierarchy_only [] db = (db.histories, db.audits, refl)
  record_hierarchy_only (t ∷ ts) db = record_hierarchy_only ts _

  pub record_hierarchy-IsValid :
      (ts : List Ticket) (db : Db)
      → IsValid db
      → IsValid (record_hierarchy env actor kind action batch key change before ts db)
  record_hierarchy-IsValid ts db v = let (hs, xs, e) = record_hierarchy_only ts db in rw e v

-- A change of chosen rows of the table, as an update of all rows.
module _ (ts : List Ticket) (ms : List ProjectMember) (v : IsValidTickets ts ms) (p : Ticket → Bool)
    (f : Ticket → Ticket) where
  abbrev pub chosen_ids : List ℕ
  chosen_ids = ids (order_by by_number (select p ts))

  abbrev pub changed : Ticket → Ticket
  changed t = if member t.id chosen_ids then f t else t

  chosen-In : (u : Ticket) → In u (order_by by_number (select p ts)) → In u ts × (p u ≡ true)
  chosen-In u m = select-In p ts u (order_by-In by_number (select p ts) u m)

  -- A row is chosen exactly if it satisfies the query.
  pub chosen : (t : Ticket) → In t ts → member t.id chosen_ids ≡ p t
  chosen t m = elim (Bool-cases (p t)) [
    | inl fits ↦
        ids-member (order_by by_number (select p ts)) t
          (In-order_by by_number (select p ts) t (In-select p ts t m fits))
        ∙ sym fits
    | inr out ↦ elim (Bool-cases (member t.id chosen_ids)) [
      | inl listed ↦
          let (_, fits) = chosen-In t (
            member-ids ts (order_by by_number (select p ts)) t v.unique (λ u j. (chosen-In u j).0) m
              listed) in
          cc
      | inr other ↦ other ∙ sym out
    ]
  ]

  -- A property of the chosen rows after the change, and of the others, is one of all rows.
  pub changed_ind :
      (P : Ticket → Ticket → Type 0)
      → ((t : Ticket) → In t ts → p t ≡ true → P t (f t))
      → ((t : Ticket) → In t ts → p t ≡ false → P t t)
      → (t : Ticket) → In t ts
      → P t (changed t)
  changed_ind P new other t m = elim (Bool-cases (p t)) [
    | inl e ↦ rw (chosen t m, e) (new t m e)
    | inr e ↦ rw (chosen t m, e) (other t m e)
  ]

module _ (now batch : ℕ) (ms : List ProjectMember) (t : Ticket) (v : IsValidRow ms t) where
  trash_ticket-IsValidRow : IsValidRow ms (trash_ticket now batch t)
  unfolding trash_ticket
  trash_ticket-IsValidRow = record {
    shape = v.shape;
    deletion_pair = refl;
    completed = v.completed;
    cancelled = v.cancelled;
    positive = omega arith;
    assignee = λ u e h. cc;
  }

  pub restore_ticket-IsValidRow :
      ((u : ℕ) → t.assignee_id ≡ some u → any (is_assignable t.project_id u) ms ≡ true)
      → IsValidRow ms (restore_ticket now t)
  unfolding restore_ticket
  restore_ticket-IsValidRow assigned = record {
    shape = v.shape;
    deletion_pair = refl;
    completed = v.completed;
    cancelled = v.cancelled;
    positive = omega arith;
    assignee = λ u e _. assigned u e;
  }

module _ (ts : List Ticket) (ms : List ProjectMember) (v : IsValidTickets ts ms) (pid now batch : ℕ)
    (root : Ticket) (r : In root ts) where
  abbrev in_tree : Ticket → Bool
  in_tree = in_active_hierarchy ts pid root

  -- What a row that is active after the change was before it.
  trashed_stays :
      (t : Ticket)
      → In t ts
      → (changed ts ms v in_tree (trash_ticket now batch) t).deleted_at ≡ none
      → (t.deleted_at ≡ none) × (in_tree t ≡ false)
  unfolding trash_ticket
  trashed_stays =
      changed_ind ts ms v in_tree (trash_ticket now batch)
        (λ t t'. t'.deleted_at ≡ none → (t.deleted_at ≡ none) × (in_tree t ≡ false)) (λ t m h a. cc)
        (λ t m h a. (a, h))

  -- The parent of a row that stays is not in the hierarchy either.
  parent_stays :
      (t u : Ticket) (p : ℕ)
      → In t ts
      → t.parent_id ≡ some p
      → find_ticket p ts ≡ some u
      → t.deleted_at ≡ none
      → in_tree t ≡ false
      → (changed ts ms v in_tree (trash_ticket now batch) u).deleted_at ≡ none
  parent_stays t u p m e found active out =
      let (n, same) = find_ticket-row ts p u found in
      let h = v.parent t m p e in
      let both : some u ≡ some h.parent = sym found ∙ h.found in
      let is_parent : u ≡ h.parent = cc in
      let project : u.project_id ≡ t.project_id = rw is_parent h.same_project in
      elim (Bool-cases (in_tree u)) [
        | inl inside ↦
            let below = e ∙ ap (λ (i : ℕ). some i) (sym same) in
            let taken =
              in_active_hierarchy-closed ts ms v pid root u t r n m below project active inside in
            cc
        | inr outside ↦
            rw (chosen ts ms v in_tree (trash_ticket now batch) u n, outside)
              (HasParent-active ts t u p h found active)
      ]

  trashed-IsUpdate : IsUpdate ts ms (changed ts ms v in_tree (trash_ticket now batch))
  unfolding trash_ticket
  trashed-IsUpdate =
      let each = changed_ind ts ms v in_tree (trash_ticket now batch) in
      record {
        keeps_id = each (λ t t'. t'.id ≡ t.id) (λ t m h. refl) (λ t m h. refl);
        same_project = each (λ t t'. t'.project_id ≡ t.project_id) (λ t m h. refl) (λ t m h. refl);
        same_type = each (λ t t'. t'.type ≡ t.type) (λ t m h. refl) (λ t m h. refl);
        row =
            each (λ t t'. IsValidRow ms t')
              (λ t m h. trash_ticket-IsValidRow now batch ms t (v.row t m)) (λ t m h. v.row t m);
        parent =
            each (λ t t'. (p : ℕ) → t'.parent_id ≡ some p → HasParent ts t p)
              (λ t m h. v.parent t m) (λ t m h. v.parent t m);
        active = λ t m p e u found a.
            let (was, out) = trashed_stays t m a in
            let kept =
              each (λ t t'. t'.parent_id ≡ t.parent_id) (λ t m h. refl) (λ t m h. refl) t m in
            parent_stays t u p m (sym kept ∙ e) found was out;
      }

module _ (env : Env) (actor : ℕ) (project_key ticket_key : Text) (expected : ℕ) (db : Db)
    (valid : IsValid db) where
  trash_body-Returns :
      Returns
        (λ (_ : TicketTrashBatchView) d. IsValid d)
        (trash_body env actor project_key ticket_key expected db)
  unfolding trash_body
  trash_body-Returns = Returns-access _ _ _ _ db _ _ λ p xs access. Returns-raise_if _ _ _ _ _ λ _.
      Returns-row _ _ _ _ _ _ λ row here. Returns-raise_if _ _ _ _ _ λ _. Returns-gets _ _ _ _ (
        Returns-raise_if _ _ _ _ _ λ _. Returns-modify _ _ _ _ (
          Returns-modify _ _ _ _ (
            Returns-modify _ _ _ _ (
              let trashed = update-IsValidTickets db.tickets db.members _ valid.0 (
                trashed-IsUpdate db.tickets db.members valid.0 p.id env.now env.new_id row.ticket
                  here.stands) in
              let done =
                record_hierarchy-IsValid env actor HistoryEventType.deleted _ env.new_id _ _ _ _ _
                  (trashed, valid.1, valid.2) in
              Returns-gets _ _ _ _ (Returns-or_raise_last _ _ _ _ λ _ _. done)))))

  -- `move_ticket_to_trash`: if the tables are valid beforehand, they are valid afterwards, whether
  -- the call returns or raises. So no ticket outside the trash keeps a parent in it.
  pub move_ticket_to_trash-IsValid :
      IsValid (move_ticket_to_trash env actor project_key ticket_key expected db).1
  unfolding move_ticket_to_trash
  move_ticket_to_trash-IsValid =
      transaction_keeps _ IsValid _ db valid (λ _ _ h. h) trash_body-Returns
