-- ===== src/Tickets/Trash/Restores.antt =====
-- `restore_ticket_trash_batch` keeps the tables valid: what it restores has an active parent and an
-- assignee who takes part in the project.
use task_ticket_management_s.Prelude.{
  ℕ, ◌≡◌, refl, sym, ap, ◌∙◌, Bool, true, false, Option, none, some, List, [], ◌∷◌, ◌&&◌, ◌==◌, any,
  In, Text, &&-true, &&_intro, any_intro, any-false, ||-false, not-false, &&-false_right,
  is_some-of_not_none, ◌⊎◌, Bool-cases, Option-cases, inl, inr, ==→eq, eq→==, is_none, is_some,
  is_none→eq, option_eq, member, In-map, In-select, In-order_by, find_first-In,
}
use task_ticket_management_s.Codes.{ProjectRole, HistoryEventType, role_eq}
use task_ticket_management_s.Document.{has_items}
use task_ticket_management_s.Store.{Ticket, ProjectMember, Db}
use task_ticket_management_s.Action.{Env}
use task_ticket_management_s.Action.Triple.{
  Returns, Returns-raise_if, Returns-or_raise, Returns-gets, Returns-modify, transaction_keeps,
}
use task_ticket_management_s.Projects.Queries.{find_membership, is_membership}
use task_ticket_management_s.Projects.Access.Rules.{Returns-access}
use task_ticket_management_s.Tickets.Queries.{
  TicketRow, find_ticket, ids, by_number, in_batch, tickets_in_deletion_batch, is_other_batch,
  deleted_outside, deleted_parent_outside_batch_exists, is_assignable, role_is_guest,
  has_ineligible_assignee, ineligible_assignee_ticket_keys,
}
use task_ticket_management_s.Tickets.Guards.Rules.{Returns-last_row}
use task_ticket_management_s.Tickets.Trash.{
  restore_ticket, restore_body, restore_ticket_trash_batch,
}
use task_ticket_management_s.Tickets.Trash.Hierarchy.{eq-child, ids-member}
use task_ticket_management_s.Tickets.Trash.Keeps.{
  changed, changed_ind, restore_ticket-IsValidRow, record_hierarchy-IsValid,
}
use task_ticket_management_s.Validity.{HasParent, IsValid, IsValidRow, IsValidTickets}
use task_ticket_management_s.Validity.Update.{
  IsUpdate, update-IsValidTickets, find_ticket-row, HasParent-active,
}

has_items-false : {A : Type 0} (xs : List A) (a : A) → has_items xs ≡ false → ¬ In a xs
has_items-false [] a h m = m
has_items-false (x ∷ xs) a h m = cc

-- A membership that is not a guest's lets its user be assigned.
not_guest :
    (ms : List ProjectMember) (pid u : ℕ)
    → role_is_guest (find_membership pid u ms) ≡ false
    → any (is_assignable pid u) ms ≡ true
not_guest ms pid u h = elim (Option-cases (find_membership pid u ms)) [
  | inl missing ↦ cc (rw missing at h)
  | inr (m, found) ↦
      let (i, fits) = find_first-In (is_membership pid u) ms m found in
      let role : role_eq m.role ProjectRole.guest ≡ false = rw found at h in
      any_intro (is_assignable pid u) ms m i (rw (fits, role))
]

same_batch :
    (batch : ℕ) (o : Option ℕ)
    → is_some o ≡ true
    → is_other_batch batch o ≡ false
    → option_eq o (some batch) ≡ true
same_batch batch none h k = cc
same_batch batch (some b) h k = not-false (b == batch) k

module _ (db : Db) (pid batch : ℕ) where
  -- The guard on the assignees of what is restored.
  assigned :
      has_items (
          ineligible_assignee_ticket_keys db pid
            (ids (tickets_in_deletion_batch db.tickets pid batch)))
        ≡ false
      → (t : Ticket) → In t db.tickets
      → in_batch pid batch t ≡ true
      → (u : ℕ) → t.assignee_id ≡ some u
      → any (is_assignable t.project_id u) db.members ≡ true
  assigned guard t m inside u e =
      let hierarchy = tickets_in_deletion_batch db.tickets pid batch in
      let listed : member t.id (ids hierarchy) ≡ true =
        ids-member hierarchy t
          (In-order_by by_number _ t (In-select (in_batch pid batch) db.tickets t m inside)) in
      let project =
        (&&-true (t.project_id == pid) _ (&&-true _ (is_some t.deleted_at) inside).0).0 in
      let wanted = λ (x : Ticket).
        (x.project_id == pid) && member x.id (ids hierarchy) && has_ineligible_assignee db pid x in
      elim (Bool-cases (has_ineligible_assignee db pid t)) [
        | inl bad ↦ absurd (
            has_items-false _ t.key guard (
              In-map (λ (x : Ticket). x.key) _ t
                (In-order_by by_number _ t (
                  In-select wanted db.tickets t m
                    (&&_intro _ _ (&&_intro _ _ project listed) bad)))))
        | inr good ↦
            let (role, _) =
              ||-false (role_is_guest (find_membership t.project_id u db.members)) _
                (rw e at good) in
            not_guest db.members t.project_id u role
      ]

module _ (ts : List Ticket) (ms : List ProjectMember) (v : IsValidTickets ts ms)
    (pid now batch : ℕ) where
  -- A deleted parent of a restored ticket is in the same batch.
  parent_in_batch :
      deleted_parent_outside_batch_exists ts pid batch ≡ false
      → (t u : Ticket) → In t ts
      → In u ts
      → in_batch pid batch t ≡ true
      → t.parent_id ≡ some u.id
      → u.project_id ≡ t.project_id
      → is_some u.deleted_at ≡ true
      → in_batch pid batch u ≡ true
  parent_in_batch guard t u m n inside e same deleted =
      let (front, _) = &&-true _ (is_some t.deleted_at) inside in
      let (project, of_batch) = &&-true (t.project_id == pid) _ front in
      let none_outside : deleted_outside ts batch t ≡ false = &&-false_right _ _ front (
        any-false
          (λ (x : Ticket).
            (x.project_id == pid)
            && option_eq x.deletion_batch_id (some batch)
            && deleted_outside ts batch x)
          ts t guard m) in
      let own_batch : is_other_batch batch u.deletion_batch_id ≡ false =
        &&-false_right _ _
          (&&_intro _ _ (&&_intro _ _ (eq→== u.project_id t.project_id same) (eq-child u.id t e))
            deleted)
          (any-false
            (λ (x : Ticket).
              (x.project_id == t.project_id)
              && option_eq t.parent_id (some x.id)
              && is_some x.deleted_at
              && is_other_batch batch x.deletion_batch_id)
            ts u none_outside n) in
      let paired : is_some u.deletion_batch_id ≡ true = sym (v.row u n).deletion_pair ∙ deleted in
      &&_intro _ _
        (&&_intro _ _ (eq→== u.project_id pid (same ∙ ==→eq t.project_id pid project))
          (same_batch batch u.deletion_batch_id paired own_batch))
        deleted

  abbrev p : Ticket → Bool
  p = in_batch pid batch

  -- A row that is active after the restoration was so before, or was in the batch.
  restored_was :
      (t : Ticket)
      → In t ts
      → (changed ts ms v p (restore_ticket now) t).deleted_at ≡ none
      → (t.deleted_at ≡ none) ⊎ (p t ≡ true)
  unfolding restore_ticket
  restored_was =
      changed_ind ts ms v p (restore_ticket now)
        (λ t t'. t'.deleted_at ≡ none → (t.deleted_at ≡ none) ⊎ (p t ≡ true)) (λ t m h a. inr h)
        (λ t m h a. inl a)

  -- Restored rows are active, and so are those that were.
  restored_is :
      (t : Ticket)
      → In t ts
      → (t.deleted_at ≡ none) ⊎ (p t ≡ true)
      → (changed ts ms v p (restore_ticket now) t).deleted_at ≡ none
  unfolding restore_ticket
  restored_is =
      changed_ind ts ms v p (restore_ticket now)
        (λ t t'. (t.deleted_at ≡ none) ⊎ (p t ≡ true) → t'.deleted_at ≡ none) (λ t m h a. refl)
        (λ t m h a. elim a [ inl active ↦ active | inr inside ↦ cc ])

  module _ (guard : deleted_parent_outside_batch_exists ts pid batch ≡ false)
      (assignable : (t : Ticket)
        → In t ts
        → p t ≡ true
        → (u : ℕ) → t.assignee_id ≡ some u
        → any (is_assignable t.project_id u) ms ≡ true) where
    parent_restored :
        (t u : Ticket) (i : ℕ)
        → In t ts
        → t.parent_id ≡ some i
        → find_ticket i ts ≡ some u
        → (t.deleted_at ≡ none) ⊎ (p t ≡ true)
        → (u.deleted_at ≡ none) ⊎ (p u ≡ true)
    parent_restored t u i m e found (inl active) =
        inl (HasParent-active ts t u i (v.parent t m i e) found active)
    parent_restored t u i m e found (inr inside) =
        let (n, same) = find_ticket-row ts i u found in
        let h = v.parent t m i e in
        let both : some u ≡ some h.parent = sym found ∙ h.found in
        let is_parent : u ≡ h.parent = cc in
        let project : u.project_id ≡ t.project_id = rw is_parent h.same_project in
        elim (Bool-cases (is_none u.deleted_at)) [
          | inl active ↦ inl (is_none→eq u.deleted_at active)
          | inr deleted ↦ inr (
              parent_in_batch guard t u m n inside (e ∙ ap (λ (x : ℕ). some x) (sym same)) project
                (is_some-of_not_none u.deleted_at deleted))
        ]

    restored-IsUpdate : IsUpdate ts ms (changed ts ms v p (restore_ticket now))
    unfolding restore_ticket
    restored-IsUpdate =
        let each = changed_ind ts ms v p (restore_ticket now) in
        record {
          keeps_id = each (λ t t'. t'.id ≡ t.id) (λ t m h. refl) (λ t m h. refl);
          same_project =
              each (λ t t'. t'.project_id ≡ t.project_id) (λ t m h. refl) (λ t m h. refl);
          same_type = each (λ t t'. t'.type ≡ t.type) (λ t m h. refl) (λ t m h. refl);
          row =
              each (λ t t'. IsValidRow ms t')
                (λ t m h. restore_ticket-IsValidRow now 0 ms t (v.row t m) (assignable t m h))
                (λ t m h. v.row t m);
          parent =
              each (λ t t'. (i : ℕ) → t'.parent_id ≡ some i → HasParent ts t i)
                (λ t m h. v.parent t m) (λ t m h. v.parent t m);
          active = λ t m i e u found a.
              let (n, _) = find_ticket-row ts i u found in
              let kept =
                each (λ t t'. t'.parent_id ≡ t.parent_id) (λ t m h. refl) (λ t m h. refl) t m in
              restored_is u n (parent_restored t u i m (sym kept ∙ e) found (restored_was t m a));
        }

module _ (env : Env) (actor : ℕ) (project_key : Text) (batch_key expected : ℕ) (db : Db)
    (valid : IsValid db) where
  restore_body-Returns :
      Returns
        (λ (_ : TicketRow) d. IsValid d)
        (restore_body env actor project_key batch_key expected db)
  unfolding restore_body
  restore_body-Returns = Returns-access _ _ _ _ db _ _ λ p xs access.
      Returns-raise_if _ _ _ _ _ λ _. Returns-gets _ _ _ _ (
        Returns-or_raise _ _ _ _ _ λ batch found. Returns-gets _ _ _ _ (
          Returns-or_raise _ _ _ _ _ λ root _. Returns-raise_if _ _ _ _ _ λ _.
            Returns-raise_if _ _ _ _ _ λ _. Returns-raise_if _ _ _ _ _ λ guard.
              Returns-raise_if _ _ _ _ _ λ eligible. Returns-modify _ _ _ _ (
                Returns-modify _ _ _ _ (
                  let d0 : Db = record db { audits = xs } in
                  let restored = update-IsValidTickets db.tickets db.members _ valid.0 (
                    restored-IsUpdate db.tickets db.members valid.0 p.id env.now batch.id guard
                      (assigned d0 p.id batch.id eligible)) in
                  Returns-last_row _ _ _ _ IsValid (
                    record_hierarchy-IsValid env actor HistoryEventType.restored _ batch.id _ _ _ _
                      _ (restored, valid.1, valid.2))))))

  -- `restore_ticket_trash_batch`: if the tables are valid beforehand, they are valid afterwards,
  -- whether the call returns or raises. So no ticket comes back below a parent in the trash or
  -- with an assignee who does not take part.
  pub restore_ticket_trash_batch-IsValid :
      IsValid (restore_ticket_trash_batch env actor project_key batch_key expected db).1
  unfolding restore_ticket_trash_batch
  restore_ticket_trash_batch-IsValid =
      transaction_keeps _ IsValid _ db valid (λ _ _ h. h) restore_body-Returns
