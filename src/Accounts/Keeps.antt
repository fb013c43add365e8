-- ===== src/Accounts/Keeps.antt =====
-- The services of accounts keep the accounts valid.
use task_ticket_management_s.Prelude.{
  ℕ, ◌≡◌, refl, sym, ap, ◌∙◌, inl, inr, true, false, not, Option, none, some, List, [], ◌∷◌, ◌++◌,
  map, ◌==◌, ==→eq, Bool-cases, if◌then◌else◌, is_some, In, In-append, In-append_left, In-map,
  map-In, find_first-In, select-In, count_where-map, arith, Text, text_eq,
}
use task_ticket_management_s.Store.{User, Organization, UserSession}
use task_ticket_management_s.Action.{Env}
use task_ticket_management_s.Action.Frame.{Keeps, keeps_rules}
use task_ticket_management_s.Untouched.{when-Keeps}
use task_ticket_management_s.Accounts.Queries.{
  find_organization, is_active_administrator, is_verified, replace_password, revoke_token,
  revoke_user_sessions,
}
use task_ticket_management_s.Accounts.Organizations.{
  OrganizationCreate, OrganizationUpdate, require_active_parent, create_organization_body,
  create_organization, put_organization, raise_code, require_parent, write_organization,
  update_organization_body, update_organization,
}
use task_ticket_management_s.Accounts.Tree.{
  HasOrganization, find_organization-some, require_administrator-Keeps, list_organizations-Keeps,
  get_active_organization-Keeps,
}
use task_ticket_management_s.Accounts.Validity.{user_ids, IsValidAccounts, AreValid}

some-HasOrganization :
    (os : List Organization) (i : ℕ)
    → is_some (find_organization i os) ≡ true
    → HasOrganization os i
some-HasOrganization os i h = go (find_organization i os) refl h
  where
    go :
        (o : Option Organization)
        → find_organization i os ≡ o
        → is_some o ≡ true
        → HasOrganization os i
    go none e k = cc
    go (some o) e k =
        let (m, q) = find_first-In (λ (x : Organization). x.id == i) os o e in
        (o, m, ==→eq o.id i q)

-- More organizations, or the same with other columns.
moved_organizations :
    (us : List User) (os os' : List Organization) (ss : List UserSession)
    → ((i : ℕ) → HasOrganization os i → HasOrganization os' i)
    → IsValidAccounts us os ss
    → IsValidAccounts us os' ss
moved_organizations us os os' ss moves v = record {
  unique = v.unique;
  row = λ u m. record {
    deactivated_at = (v.row u m).deactivated_at;
    deactivated_by = (v.row u m).deactivated_by;
    organization = find_organization-some os' u.organization_id (
        moves u.organization_id
          (some-HasOrganization os u.organization_id (v.row u m).organization));
  };
  session = v.session;
  administered = v.administered;
}

append-organization :
    (o : Organization) (us : List User) (os : List Organization) (ss : List UserSession)
    → IsValidAccounts us os ss
    → IsValidAccounts us (os ++ o ∷ []) ss
append-organization o us os ss =
    moved_organizations us os (os ++ o ∷ []) ss
      λ i h. let (x, m, e) = h in (x, In-append_left os (o ∷ []) x m, e)

put-organization :
    (c : Organization) (us : List User) (os : List Organization) (ss : List UserSession)
    → IsValidAccounts us os ss
    → IsValidAccounts us (put_organization c os) ss
put-organization c us os ss = moved_organizations us os (put_organization c os) ss λ i h.
    let (x, m, e) = h in
    (
      if x.id == c.id then c else x,
      In-map (λ (o : Organization). if o.id == c.id then c else o) os x m,
      elim (Bool-cases (x.id == c.id)) [
        | inl t ↦ rw t (sym (==→eq x.id c.id t) ∙ e)
        | inr f ↦ rw f e
      ],
    )

-- Fewer sessions.
fewer_sessions :
    (us : List User) (os : List Organization) (ss ss' : List UserSession)
    → ((s : UserSession) → In s ss' → In s ss)
    → IsValidAccounts us os ss
    → IsValidAccounts us os ss'
fewer_sessions us os ss ss' sub v = record {
  unique = v.unique;
  row = v.row;
  session = λ s m. v.session s (sub s m);
  administered = v.administered;
}

pub revoked_token :
    (t : Text) (us : List User) (os : List Organization) (ss : List UserSession)
    → IsValidAccounts us os ss
    → IsValidAccounts us os (revoke_token t ss)
revoked_token t us os ss =
    fewer_sessions us os ss (revoke_token t ss)
      λ s m. (select-In (λ (s : UserSession). not (text_eq s.token_hash t)) ss s m).0

pub revoked_sessions :
    (i : ℕ) (us : List User) (os : List Organization) (ss : List UserSession)
    → IsValidAccounts us os ss
    → IsValidAccounts us os (revoke_user_sessions i ss)
revoked_sessions i us os ss =
    fewer_sessions us os ss (revoke_user_sessions i ss)
      λ s m. (select-In (λ (s : UserSession). not (s.user_id == i)) ss s m).0

-- A session of an active user.
pub append-session :
    (s : UserSession) (u : User) (us : List User) (os : List Organization) (ss : List UserSession)
    → IsValidAccounts us os ss
    → In u us
    → u.is_active ≡ true
    → s.user_id ≡ u.id
    → IsValidAccounts us os (ss ++ s ∷ [])
append-session s u us os ss v m active e = record {
  unique = v.unique;
  row = v.row;
  session = λ t n. elim (In-append ss (s ∷ []) t n) [
    | inl old ↦ v.session t old
    | inr (inl same) ↦ (u, m, sym e ∙ ap (λ (x : UserSession). x.user_id) (sym same), active)
    | inr (inr empty) ↦ absurd empty
  ];
  administered = v.administered;
}

-- Other passwords.
module _ (i : ℕ) (old new : Text) (us : List User) (os : List Organization)
    (ss : List UserSession) where
  abbrev changed : User → User
  changed u =
      if is_verified i old u
      then record u { password_hash = new; must_change_password = false }
      else u

  replaced_ids : (xs : List User) → user_ids (map changed xs) ≡ user_ids xs
  replaced_ids [] = refl
  replaced_ids (u ∷ xs) =
      let rest = replaced_ids xs in
      elim (Bool-cases (is_verified i old u)) [
        | inl t ↦ rw t (ap (λ (is : List ℕ). u.id ∷ is) rest)
        | inr f ↦ rw f (ap (λ (is : List ℕ). u.id ∷ is) rest)
      ]

  pub replaced_password :
      IsValidAccounts us os ss → IsValidAccounts (replace_password i old new us) os ss
  replaced_password v = record {
    unique = rw (replaced_ids us) v.unique;
    row = λ w n.
        let (u, m, e) = map-In changed us w n in
        rw e (elim (Bool-cases (is_verified i old u)) [
          | inl t ↦ rw t (record {
            deactivated_at = (v.row u m).deactivated_at;
            deactivated_by = (v.row u m).deactivated_by;
            organization = (v.row u m).organization;
          })
          | inr f ↦ rw f (v.row u m)
        ]);
    session = λ s n.
        let (u, m, is, active) = v.session s n in
        elim (Bool-cases (is_verified i old u)) [
          | inl t ↦ (changed u, In-map changed us u m, rw t is, rw t active)
          | inr f ↦ (changed u, In-map changed us u m, rw f is, rw f active)
        ];
    administered =
        let before = v.administered in
        let kept =
          count_where-map is_active_administrator changed us (λ u m h.
            elim (Bool-cases (is_verified i old u)) [ inl t ↦ rw t h | inr f ↦ rw f h ]) in
        omega arith;
  }

module _ (env : Env) (actor : ℕ) where
  require_active_parent-Keeps :
      (parent : Option ℕ) → Keeps AreValid (require_active_parent actor parent)
  require_active_parent-Keeps none = search keeps_rules
  require_active_parent-Keeps (some p) =
      search (keeps_rules, get_active_organization-Keeps) depth 20

  pub create_organization-Keeps :
      (key : Text) (payload : OrganizationCreate) (ip : Text)
      → Keeps AreValid (create_organization env key actor payload ip)
  unfolding create_organization create_organization_body
  create_organization-Keeps key payload ip =
      search
        (keeps_rules, require_administrator-Keeps, require_active_parent-Keeps, append-organization)
        depth 40 fits 4000

  raise_code-Keeps : (c : _) → Keeps AreValid (raise_code c)
  raise_code-Keeps none = search keeps_rules
  raise_code-Keeps (some c) = search keeps_rules

  require_parent-Keeps :
      (oid : ℕ) (o : Organization) (payload : OrganizationUpdate) (parent : Option ℕ)
      → Keeps AreValid (require_parent actor oid o payload parent)
  unfolding require_parent
  require_parent-Keeps oid o payload none = search keeps_rules
  require_parent-Keeps oid o payload (some p) =
      search (keeps_rules, when-Keeps, raise_code-Keeps, get_active_organization-Keeps) depth 40
        fits 4000

  pub update_organization-Keeps :
      (oid : ℕ) (payload : OrganizationUpdate) (ip : Text)
      → Keeps AreValid (update_organization env actor oid payload ip)
  unfolding update_organization update_organization_body write_organization
  update_organization-Keeps oid payload ip =
      search
        (
          keeps_rules, when-Keeps, require_administrator-Keeps, require_parent-Keeps,
          list_organizations-Keeps, put-organization,
        )
        depth 40 fits 4000
