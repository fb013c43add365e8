-- ===== src/Accounts/Tree.antt =====
-- The loop of `list_organizations` in app/services/administration.py: it ends, and it shows rows of
-- the table only.
use task_ticket_management_s.Prelude.{
  ℕ, zero, suc, ◌+◌, ◌≤◌, ◌<◌, ◌≡◌, refl, sym, ap, ◌∙◌, inl, inr, Bool, true, false, not, Option,
  none, some, List, [], ◌∷◌, ◌++◌, ◌&&◌, ◌==◌, ==→eq, ==_refl, Bool-cases, option_eq, select,
  find_first-In, find_first-none, is_some, length, member, In, In-append, map-In, select-In,
  order_by-In, count_where, count_where-less, count_where-length, arith, Option-cases,
}
use task_ticket_management_s.Store.{User, Organization, Db}
use task_ticket_management_s.Action.{Action, raise, ◌>>=◌}
use task_ticket_management_s.Action.Triple.{
  Returns, raised, Returns-bind, Returns-gets, Returns-or_raise, Returns-raise_if, Returns-pure,
  Returns-weaken,
}
use task_ticket_management_s.Action.Frame.{Keeps, keeps_rules, Returns-Keeps}
use task_ticket_management_s.Accounts.Queries.{
  find_organization, organization_at, list_organization_rows, by_name,
}
use task_ticket_management_s.Accounts.Organizations.{
  OrganizationView, Pending, pending_children, ancestor_loop, organization_view, Walk, finished,
  met_again, walk, check_walk, organization_tree, require_administrator, list_organizations,
  get_active_organization,
}

-- The rows that the loop has not seen.
abbrev pub unseen : List ℕ → Organization → Bool
unseen seen o = not (member o.id seen)

pub unseen-shrinks :
    (i : ℕ) (seen : List ℕ) (o : Organization) → unseen (i ∷ seen) o ≡ true → unseen seen o ≡ true
unseen-shrinks i seen o h = ground arith

pub marks :
    (seen : List ℕ) (o : Organization)
    → member o.id seen ≡ false
    → (unseen (o.id ∷ seen) o ≡ false) × (unseen seen o ≡ true)
marks seen o h = rw (==_refl o.id) (refl, rw h refl)

abbrev pub AreRows : List Organization → List Pending → Type 0
AreRows rows stack = (p : Pending) → In p stack → In p.row rows

pub pending_children-AreRows :
    (rows : List Organization) (parent : Option ℕ) (d : ℕ) (b : Bool)
    → AreRows rows (pending_children rows parent d b)
pending_children-AreRows rows parent d b p m =
    let (o, n, e) =
      map-In (λ (o : Organization). record { row = o; depth = d; parent_active = b })
        (select (λ o. option_eq o.parent_id parent) rows) p m in
    rw e ((select-In (λ o. option_eq o.parent_id parent) rows o n).0)

pub AreRows-append :
    (rows : List Organization) (ps qs : List Pending)
    → AreRows rows ps
    → AreRows rows qs
    → AreRows rows (ps ++ qs)
AreRows-append rows ps qs h k p m = elim (In-append ps qs p m) [ inl l ↦ h p l | inr r ↦ k p r ]

walk-total :
    (fuel : ℕ) (rows : List Organization) (us : List User) (stack : List Pending) (seen : List ℕ)
    (result : List OrganizationView)
    → AreRows rows stack
    → count_where (unseen seen) rows < fuel
    → is_some (walk fuel rows us stack seen result) ≡ true
unfolding walk
walk-total zero rows us stack seen result h k = absurd (omega arith)
walk-total (suc fuel) rows us [] seen result h k = refl
walk-total (suc fuel) rows us (p ∷ stack) seen result h k =
    let rest =
      walk-total fuel rows us
        (pending_children rows (some p.row.id) (p.depth + 1) (p.parent_active && p.row.is_active)
          ++ stack)
        (p.row.id ∷ seen) (result ++ organization_view us p ∷ [])
        (AreRows-append rows _ stack (pending_children-AreRows rows _ _ _) (λ q m. h q (inr m))) in
    elim (Bool-cases (member p.row.id seen)) [
      | inl t ↦ rw t refl
      | inr f ↦
          let (now, before) = marks seen p.row f in
          let fewer =
            count_where-less (unseen (p.row.id ∷ seen)) (unseen seen) (unseen-shrinks p.row.id seen)
              rows p.row (h p (inl refl)) now before in
          rw f (rest (omega arith))
    ]

-- The loop of `list_organizations` ends on every table of organizations, also one whose parents
-- form a cycle or whose ids repeat: the fuel that the model gives it, two more than the number of
-- rows, is enough for an outcome.
pub organization_tree-total :
    (rows : List Organization) (us : List User) → is_some (organization_tree rows us) ≡ true
unfolding organization_tree
organization_tree-total rows us =
    let bound = count_where-length (unseen []) rows in
    walk-total (length rows + 2) rows us _ [] [] (pending_children-AreRows rows none 0 true)
      (omega arith)

ancestor_loop-none :
    (fuel : ℕ) (os : List Organization) (oid : ℕ) (visited : List ℕ)
    → 0 < fuel
    → is_some (ancestor_loop fuel os oid visited none) ≡ true
unfolding ancestor_loop
ancestor_loop-none zero os oid visited h = absurd (omega arith)
ancestor_loop-none (suc fuel) os oid visited h = refl

organization_at-In :
    (parent : Option ℕ) (os : List Organization) (o : Organization)
    → organization_at parent os ≡ some o
    → In o os
organization_at-In none os o h = cc
organization_at-In (some i) os o h = (find_first-In (λ (x : Organization). x.id == i) os o h).0

-- The loop over the ancestors in `update_organization` ends, with the fuel that the model gives it.
pub ancestor_loop-total :
    (fuel : ℕ) (os : List Organization) (oid : ℕ) (visited : List ℕ)
    (ancestor : Option Organization)
    → ((a : Organization) → ancestor ≡ some a → In a os)
    → count_where (unseen visited) os + 2 ≤ fuel
    → is_some (ancestor_loop fuel os oid visited ancestor) ≡ true
unfolding ancestor_loop
ancestor_loop-total zero os oid visited ancestor h k = absurd (omega arith)
ancestor_loop-total (suc fuel) os oid visited none h k = refl
ancestor_loop-total (suc fuel) os oid visited (some a) h k =
    let next =
      ancestor_loop-total fuel os oid (a.id ∷ visited) (organization_at a.parent_id os)
        (organization_at-In a.parent_id os) in
    elim (Bool-cases (a.id == oid)) [
      | inl t ↦ rw t refl
      | inr f ↦ rw f (elim (Bool-cases (member a.id visited)) [
        | inl t ↦ rw t refl
        | inr g ↦
            let (now, before) = marks visited a g in
            let fewer =
              count_where-less (unseen (a.id ∷ visited)) (unseen visited)
                (unseen-shrinks a.id visited) os a (h a refl) now before in
            rw g (next (omega arith))
      ])
    ]

-- A view of a row of the table.
abbrev pub HasOrganization : List Organization → ℕ → Type 0
HasOrganization os i = (o : Organization) × In o os × (o.id ≡ i)

abbrev AreViews : List Organization → List OrganizationView → Type 0
AreViews rows views = (v : OrganizationView) → In v views → HasOrganization rows v.id

AreViews-append :
    (rows : List Organization) (us : List User) (p : Pending) (views : List OrganizationView)
    → In p.row rows
    → AreViews rows views
    → AreViews rows (views ++ organization_view us p ∷ [])
AreViews-append rows us p views m h v n = elim (In-append views (organization_view us p ∷ []) v n) [
  | inl l ↦ h v l
  | inr (inl e) ↦ (p.row, m, sym (ap (λ (w : OrganizationView). w.id) e))
  | inr (inr empty) ↦ absurd empty
]

walk-AreViews :
    (fuel : ℕ) (rows : List Organization) (us : List User) (stack : List Pending) (seen : List ℕ)
    (result : List OrganizationView)
    → AreRows rows stack
    → AreViews rows result
    → (seen' : List ℕ) (result' : List OrganizationView)
    → walk fuel rows us stack seen result ≡ some (finished seen' result')
    → AreViews rows result'
unfolding walk
walk-AreViews zero rows us stack seen result h k seen' result' e = cc
walk-AreViews (suc fuel) rows us [] seen result h k seen' result' e =
    let same : result ≡ result' = cc in rw (← same) k
walk-AreViews (suc fuel) rows us (p ∷ stack) seen result h k seen' result' e =
    elim (Bool-cases (member p.row.id seen)) [
      | inl t ↦ let stop : some met_again ≡ some (finished seen' result') = rw t at e in cc
      | inr f ↦
          walk-AreViews fuel rows us
            (pending_children rows (some p.row.id) (p.depth + 1)
                (p.parent_active && p.row.is_active)
              ++ stack)
            (p.row.id ∷ seen) (result ++ organization_view us p ∷ [])
            (AreRows-append rows _ stack (pending_children-AreRows rows _ _ _) (λ q m. h q (inr m)))
            (AreViews-append rows us p result (h p (inl refl)) k) seen' result' (rw f at e)
    ]

check_walk-Returns :
    (rows : List Organization) (n : ℕ) (w : Walk) (db : Db)
    → ((seen : List ℕ) (result : List OrganizationView)
        → w ≡ finished seen result
        → AreViews rows result)
    → Returns (λ views d. (d ≡ db) × AreViews rows views) (check_walk n w db)
unfolding raise
check_walk-Returns rows n met_again db h = raised _ db
check_walk-Returns rows n (finished seen result) db h =
    Returns-raise_if _ _ _ _ _ λ _. Returns-pure _ _ _ (refl, h seen result refl)

AreViews-table :
    (db : Db) (views : List OrganizationView)
    → AreViews (list_organization_rows db) views
    → AreViews db.organizations views
unfolding list_organization_rows
AreViews-table db views h v m =
    let (o, n, e) = h v m in (o, order_by-In by_name db.organizations o n, e)

module _ (P : Db → Type 0) (actor : ℕ) where
  pub require_administrator-Keeps : Keeps P (require_administrator actor)
  unfolding require_administrator
  require_administrator-Keeps = search keeps_rules depth 20

  check_walk-Keeps : (n : ℕ) (w : Walk) → Keeps P (check_walk n w)
  check_walk-Keeps n met_again = search keeps_rules
  check_walk-Keeps n (finished seen result) = search keeps_rules depth 20

  pub list_organizations-Keeps : Keeps P (list_organizations actor)
  unfolding list_organizations
  list_organizations-Keeps =
      search (keeps_rules, require_administrator-Keeps, check_walk-Keeps) depth 30 fits 2000

  pub get_active_organization-Keeps : (oid : ℕ) → Keeps P (get_active_organization actor oid)
  unfolding get_active_organization
  get_active_organization-Keeps oid =
      search (keeps_rules, list_organizations-Keeps) depth 30 fits 2000

-- The rule for a check that writes nothing.
pub Returns-check :
    {A B : Type 0} (Q : B → Db → Type 0) (m : Action A) (k : A → Action B) (db : Db)
    → Keeps (λ d. d ≡ db) m
    → ((a : A) → Returns Q (k a db))
    → Returns Q ((m >>= k) db)
Returns-check Q m k db keeps next =
    Returns-bind Q (λ _ d. d ≡ db) _ k db (Returns-Keeps (λ d. d ≡ db) m db keeps refl)
      λ a d e. rw e (next a)

module _ (actor : ℕ) (db : Db) where
  pub list_organizations-Returns :
      Returns (λ views d. (d ≡ db) × AreViews db.organizations views) (list_organizations actor db)
  unfolding list_organizations organization_tree
  list_organizations-Returns = Returns-check _ _ _ _ (require_administrator-Keeps _ actor) λ _.
      Returns-gets _ _ _ _ (
        Returns-gets _ _ _ _ (
          Returns-or_raise _ _ _ _ _ λ w found.
            Returns-weaken _ _ _
              (check_walk-Returns (list_organization_rows db) _ w db λ seen result e.
                walk-AreViews (length (list_organization_rows db) + 2) _ db.users _ [] []
                  (pending_children-AreRows _ none 0 true) (λ v m. absurd m) seen result
                  (found ∙ ap some e))
              λ views d (same, h). (same, AreViews-table db views h)))

  pub get_active_organization-Returns :
      (oid : ℕ)
      → Returns
          (λ _ d. (d ≡ db) × HasOrganization db.organizations oid)
          (get_active_organization actor oid db)
  unfolding get_active_organization
  get_active_organization-Returns oid =
      Returns-bind _ _ _ _ db list_organizations-Returns λ views d (same, h). rw same (
        Returns-or_raise _ _ _ _ _ λ view found. Returns-raise_if _ _ _ _ _ λ _.
          Returns-pure _ _ _ (
            let (m, is) = find_first-In (λ (v : OrganizationView). v.id == oid) views view found in
            let (o, n, e) = h view m in (refl, (o, n, e ∙ ==→eq view.id oid is))))

-- The rule for the choice of an active organization.
pub Returns-organization :
    {B : Type 0} (Q : B → Db → Type 0) (actor oid : ℕ) (k : OrganizationView → Action B) (db : Db)
    → ((v : OrganizationView) → HasOrganization db.organizations oid → Returns Q (k v db))
    → Returns Q ((get_active_organization actor oid >>= k) db)
Returns-organization Q actor oid k db next =
    Returns-bind Q _ _ k db (get_active_organization-Returns actor db oid)
      λ v d (e, h). rw e (next v h)

pub find_organization-some :
    (os : List Organization) (i : ℕ)
    → HasOrganization os i
    → is_some (find_organization i os) ≡ true
find_organization-some os i (o, m, e) = elim (Option-cases (find_organization i os)) [
  | inl missing ↦
      let absent = find_first-none (λ (x : Organization). x.id == i) os o missing m in
      absurd (ground (arith, e))
  | inr (x, found) ↦ rw found refl
]
