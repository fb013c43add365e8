-- ===== src/Accounts/Reached.antt =====
-- The loop of `list_organizations` in app/services/administration.py reaches every row of the table,
-- or it is refused by the check that follows it.
use task_ticket_management_s.Prelude.{
  ℕ, zero, suc, ◌+◌, ◌≤◌, ◌≡◌, refl, ap, ◌∙◌, inl, inr, Bool, true, not-false, none, some, List, [],
  ◌∷◌, ◌++◌, ◌&&◌, ◌==◌, ==→eq, Bool-cases, ||-true, option_eq, option_eq→eq, count_where-positive,
  select, length, member, In, In-append, In-append_left, In-append_right, map-In, select-In,
  In-order_by, order_by-In, count_where, count_where-less, count_where-length, arith,
}
use task_ticket_management_s.Store.{User, Organization, Db}
use task_ticket_management_s.Action.{raise}
use task_ticket_management_s.Action.Triple.{
  Returns, raised, Returns-gets, Returns-or_raise, Returns-raise_if, Returns-pure, Returns-weaken,
}
use task_ticket_management_s.Accounts.Queries.{list_organization_rows, by_name}
use task_ticket_management_s.Accounts.Organizations.{
  OrganizationView, Pending, pending_children, organization_view, Walk, finished, met_again, walk,
  check_walk, organization_tree, list_organizations,
}
use task_ticket_management_s.Accounts.Tree.{
  unseen, marks, unseen-shrinks, AreRows, AreRows-append, pending_children-AreRows,
  require_administrator-Keeps, Returns-check,
}

-- An organization from which the parents lead, one after the other, to one without a parent.
pub data IsReached (os : List Organization) : ℕ → Type 0 where
  at_top : (o : Organization) → In o os → o.parent_id ≡ none → IsReached os o.id
  below :
      (o : Organization) (p : ℕ)
      → In o os
      → o.parent_id ≡ some p
      → IsReached os p
      → IsReached os o.id

abbrev pub HasView : List OrganizationView → ℕ → Type 0
HasView views i = (v : OrganizationView) × In v views × (v.id ≡ i)

-- What is in the list, and where its parents lead.
abbrev AreReached : List Organization → List Pending → Type 0
AreReached rows stack = (p : Pending) → In p stack → IsReached rows p.row.id

abbrev AreDone : List Organization → List ℕ → List OrganizationView → Type 0
AreDone rows seen result = (i : ℕ) → member i seen ≡ true → IsReached rows i × HasView result i

children-AreReached :
    (rows : List Organization) (i d : ℕ) (b : Bool)
    → IsReached rows i
    → AreReached rows (pending_children rows (some i) d b)
children-AreReached rows i d b h p m =
    let (o, n, e) =
      map-In (λ (o : Organization). record { row = o; depth = d; parent_active = b })
        (select (λ o. option_eq o.parent_id (some i)) rows) p m in
    let (k, same) = select-In (λ o. option_eq o.parent_id (some i)) rows o n in
    rw e (below o i k (option_eq→eq o.parent_id (some i) same) h)

roots-AreReached :
    (rows : List Organization) (d : ℕ) (b : Bool) → AreReached rows (pending_children rows none d b)
roots-AreReached rows d b p m =
    let (o, n, e) =
      map-In (λ (o : Organization). record { row = o; depth = d; parent_active = b })
        (select (λ o. option_eq o.parent_id none) rows) p m in
    let (k, same) = select-In (λ o. option_eq o.parent_id none) rows o n in
    rw e (at_top o k (option_eq→eq o.parent_id none same))

AreReached-append :
    (rows : List Organization) (ps qs : List Pending)
    → AreReached rows ps
    → AreReached rows qs
    → AreReached rows (ps ++ qs)
AreReached-append rows ps qs h k p m = elim (In-append ps qs p m) [ inl l ↦ h p l | inr r ↦ k p r ]

-- One row more is done.
AreDone-visit :
    (rows : List Organization) (us : List User) (p : Pending) (seen : List ℕ)
    (result : List OrganizationView)
    → IsReached rows p.row.id
    → AreDone rows seen result
    → AreDone rows (p.row.id ∷ seen) (result ++ organization_view us p ∷ [])
AreDone-visit rows us p seen result h done i e = elim (||-true (p.row.id == i) (member i seen) e) [
  | inl t ↦
      rw (← ==→eq p.row.id i t)
        (h, (organization_view us p, In-append_right result _ _ (inl refl), refl))
  | inr t ↦
      let (reached, (v, m, same)) = done i t in (reached, (v, In-append_left result _ v m, same))
]

-- What the loop has done when it ends: no more rows are left than the ids it has seen leave room for.
walk-AreDone :
    (fuel : ℕ) (rows : List Organization) (us : List User) (stack : List Pending) (seen : List ℕ)
    (result : List OrganizationView)
    → AreRows rows stack
    → AreReached rows stack
    → AreDone rows seen result
    → count_where (unseen seen) rows + length seen ≤ length rows
    → (seen' : List ℕ) (result' : List OrganizationView)
    → walk fuel rows us stack seen result ≡ some (finished seen' result')
    → AreDone rows seen' result' × (count_where (unseen seen') rows + length seen' ≤ length rows)
unfolding walk
walk-AreDone zero rows us stack seen result h r k b seen' result' e = cc
walk-AreDone (suc fuel) rows us [] seen result h r k b seen' result' e =
    let same : result ≡ result' = cc in
    let same_seen : seen ≡ seen' = cc in rw (← same, ← same_seen) (k, b)
walk-AreDone (suc fuel) rows us (p ∷ stack) seen result h r k b seen' result' e =
    elim (Bool-cases (member p.row.id seen)) [
      | inl t ↦ let stop : some met_again ≡ some (finished seen' result') = rw t at e in cc
      | inr f ↦
          let (now, before) = marks seen p.row f in
          let fewer =
            count_where-less (unseen (p.row.id ∷ seen)) (unseen seen) (unseen-shrinks p.row.id seen)
              rows p.row (h p (inl refl)) now before in
          walk-AreDone fuel rows us
            (pending_children rows (some p.row.id) (p.depth + 1)
                (p.parent_active && p.row.is_active)
              ++ stack)
            (p.row.id ∷ seen) (result ++ organization_view us p ∷ [])
            (AreRows-append rows _ stack (pending_children-AreRows rows _ _ _) (λ q m. h q (inr m)))
            (AreReached-append rows _ stack (children-AreReached rows p.row.id _ _ (r p (inl refl)))
              (λ q m. r q (inr m)))
            (AreDone-visit rows us p seen result (r p (inl refl)) k) (omega arith) seen' result'
            (rw f at e)
    ]

-- Every organization has a view, and its parents lead to an organization without a parent.
abbrev pub AreListed : List Organization → List OrganizationView → Type 0
AreListed os views = (o : Organization) → In o os → IsReached os o.id × HasView views o.id

-- If as many ids were seen as there are rows, then all were.
all_seen :
    (rows : List Organization) (seen : List ℕ) (o : Organization)
    → count_where (unseen seen) rows + length seen ≤ length rows
    → (length seen == length rows) ≡ true
    → In o rows
    → member o.id seen ≡ true
all_seen rows seen o bound full m = elim (Bool-cases (member o.id seen)) [
  | inl t ↦ t
  | inr f ↦
      let left = count_where-positive (unseen seen) rows o m (rw f refl) in
      let same = ==→eq (length seen) (length rows) full in absurd (omega arith)
]

check_walk-AreListed :
    (rows : List Organization) (w : Walk) (db : Db)
    → ((seen : List ℕ) (result : List OrganizationView)
        → w ≡ finished seen result
        → AreDone rows seen result × (count_where (unseen seen) rows + length seen ≤ length rows))
    → Returns (λ views d. AreListed rows views) (check_walk (length rows) w db)
unfolding raise
check_walk-AreListed rows met_again db h = raised _ db
check_walk-AreListed rows (finished seen result) db h =
    let (done, bound) = h seen result refl in
    Returns-raise_if _ _ _ _ _
      λ full. Returns-pure _ _ _ λ o m. done o.id (all_seen rows seen o bound (not-false _ full) m)

IsReached-rows :
    (rows os : List Organization) (i : ℕ)
    → ((o : Organization) → In o rows → In o os)
    → IsReached rows i
    → IsReached os i
IsReached-rows rows os i sub (at_top o m e) = at_top o (sub o m) e
IsReached-rows rows os i sub (below o p m e r) =
    below o p (sub o m) e (IsReached-rows rows os p sub r)

AreListed-table :
    (db : Db) (views : List OrganizationView)
    → AreListed (list_organization_rows db) views
    → AreListed db.organizations views
unfolding list_organization_rows
AreListed-table db views h o m =
    let (reached, shown) = h o (In-order_by by_name db.organizations o m) in
    (
      IsReached-rows (list_organization_rows db) db.organizations o.id
          (λ x n. order_by-In by_name db.organizations x n) reached,
      shown,
    )

pub list_organizations-AreListed :
    (actor : ℕ) (db : Db)
    → Returns (λ views d. AreListed db.organizations views) (list_organizations actor db)
unfolding list_organizations organization_tree
list_organizations-AreListed actor db =
    Returns-check _ _ _ _ (require_administrator-Keeps _ actor) λ _. Returns-gets _ _ _ _ (
      Returns-gets _ _ _ _ (
        Returns-or_raise _ _ _ _ _ λ w found.
          let rows : List Organization = list_organization_rows db in
          let bound = count_where-length (unseen []) rows in
          Returns-weaken _ _ _
            (check_walk-AreListed rows w db λ seen result e.
              walk-AreDone (length rows + 2) rows db.users _ [] []
                (pending_children-AreRows _ none 0 true) (roots-AreReached rows 0 true) (λ i n. cc)
                (omega arith) seen result (found ∙ ap some e))
            λ views d h. AreListed-table db views h))
