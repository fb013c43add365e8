-- ===== src/Accounts/Listed.antt =====
-- `update_organization` commits only a tree that `list_organizations` can list.
use task_ticket_management_s.Prelude.{ℕ, ◌≡◌, refl, ap, ◌∙◌, ◌==◌, some, List, find_first, Text}
use task_ticket_management_s.Store.{Db}
use task_ticket_management_s.Action.{Env, Result, ok, err, Action, continue, ◌>>=◌}
use task_ticket_management_s.Action.Triple.{
  Returns, raised, Returns-gets, Returns-or_raise, Returns-or_raise_last, Returns-raise_if,
  Returns-transaction, Returns-elim,
}
use task_ticket_management_s.Action.Frame.{Keeps}
use task_ticket_management_s.Accounts.Organizations.{
  OrganizationView, OrganizationUpdate, list_organizations, update_organization_body,
  update_organization,
}
use task_ticket_management_s.Accounts.Reached.{AreListed, list_organizations-AreListed}
use task_ticket_management_s.Accounts.Tree.{list_organizations-Keeps}

-- What an action has returned, and that it wrote nothing.
ran :
    {A B : Type 0} (Q : B → Db → Type 0) (m : Action A) (k : A → Action B) (db : Db)
    → Keeps (λ d. d ≡ db) m
    → ((a : A) → m db ≡ (ok a, db) → Returns Q (k a db))
    → Returns Q ((m >>= k) db)
unfolding ◌>>=◌
ran {A = A} Q m k db keeps next = go (m db) refl (keeps.at db refl)
  where
    go : (r : Result A × Db) → m db ≡ r → r.1 ≡ db → Returns Q (continue r.0 k r.1)
    go (ok a, d) e same = rw same (next a (e ∙ ap (λ (x : Db). (ok a, x)) same))
    go (err f, d) e same = raised f d

-- Whatever comes first.
after :
    {A B : Type 0} (Q : B → Db → Type 0) (m : Action A) (k : A → Action B) (db : Db)
    → ((a : A) (d : Db) → Returns Q (k a d))
    → Returns Q ((m >>= k) db)
unfolding ◌>>=◌
after {A = A} Q m k db next = go (m db)
  where
    go : (r : Result A × Db) → Returns Q (continue r.0 k r.1)
    go (ok a, d) = next a d
    go (err f, d) = raised f d

-- The organizations can be listed, and the one with that id is in the list.
abbrev pub IsListed : ℕ → ℕ → OrganizationView → Db → Type 0
IsListed actor oid view db =
    (views : List OrganizationView) × (list_organizations actor db ≡ (ok views, db))
    × (find_first (λ v. v.id == oid) views ≡ some view)
    × AreListed db.organizations views

update_organization_body-Returns :
    (env : Env) (actor oid : ℕ) (payload : OrganizationUpdate) (ip : Text) (db : Db)
    → Returns (IsListed actor oid) (update_organization_body env actor oid payload ip db)
unfolding update_organization_body
update_organization_body-Returns env actor oid payload ip db = after _ _ _ _ λ _ d0.
    Returns-gets _ _ _ _ (
      Returns-or_raise _ _ _ _ _ λ current found. after _ _ _ _ λ _ d1. Returns-gets _ _ _ _ (
        Returns-raise_if _ _ _ _ _ λ _. after _ _ _ _ λ _ d2.
          ran _ _ _ _ (list_organizations-Keeps _ actor) λ views listed.
            Returns-or_raise_last _ _ _ _ λ view there. (
              views,
              listed,
              there,
              Returns-elim (λ vs d. AreListed _ vs) _ views (list_organizations-AreListed actor _)
                  (ap (λ (r : Result (List OrganizationView) × Db). r.0) listed),
            )))

-- If `update_organization` returns a view, then `list_organizations` returns afterwards for the
-- same actor, and the view is the first in that list with the id of the organization; every
-- organization of the table has a view in the list, and its parents lead, one after the other, to
-- an organization without a parent.
pub update_organization-IsListed :
    (env : Env) (actor oid : ℕ) (payload : OrganizationUpdate) (ip : Text) (db : Db)
    (view : OrganizationView)
    → (update_organization env actor oid payload ip db).0 ≡ ok view
    → IsListed actor oid view (update_organization env actor oid payload ip db).1
unfolding update_organization
update_organization-IsListed env actor oid payload ip db view returns =
    Returns-elim (IsListed actor oid) _ view
      (Returns-transaction _ _ _ (update_organization_body-Returns env actor oid payload ip db))
      returns
