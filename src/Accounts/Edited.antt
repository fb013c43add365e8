-- ===== src/Accounts/Edited.antt =====
-- Creating, updating and resetting a user keeps the accounts valid: the last active system
-- administrator stays, and a user who is deactivated has no session.
use task_ticket_management_s.Prelude.{
  ℕ, ◌<◌, ◌≡◌, refl, ap, ◌∙◌, ◌⊎◌, inl, inr, Bool, true, false, not, ◌&&◌, ◌||◌, Option, none, some,
  List, [], ◌∷◌, ◌++◌, ◌==◌, ==→eq, Bool-cases, is_some, leb, member, In, In-append, In-append_left,
  find_first-In, select-In, count_where-append, arith, Text,
}
use task_ticket_management_s.Store.{User, Organization, UserSession, Db}
use task_ticket_management_s.Action.{Env, Action, ◌>>=◌}
use task_ticket_management_s.Action.Triple.{
  Returns, Returns-bind, Returns-gets, Returns-or_raise_last,
}
use task_ticket_management_s.Action.Frame.{Keeps, keeps_rules}
use task_ticket_management_s.Projects.Access.{is_system_admin_role}
use task_ticket_management_s.Accounts.Passwords.{Secrets, validate_password, hash_password}
use task_ticket_management_s.Accounts.Queries.{
  ManagedUser, with_organization, to_managed_user, find_organization, is_active_administrator,
  active_system_administrator_count,
}
use task_ticket_management_s.Accounts.Users.{
  UserUpdate, managed_user, removes_active_administrator, ActivityChange, put_activity,
  activity_change, apply_user_update, put_user, revoke_if,
}
use task_ticket_management_s.Accounts.Tree.{HasOrganization, find_organization-some}
use task_ticket_management_s.Accounts.Validity.{
  user_ids, same_user, IsValidUser, IsValidAccounts, AreValid, IsUserEdit, put_user-IsValidAccounts,
}
use task_ticket_management_s.Validity.Ids.{NoDup-append}

user_ids-append : (us : List User) (u : User) → user_ids (us ++ u ∷ []) ≡ user_ids us ++ u.id ∷ []
user_ids-append [] u = refl
user_ids-append (w ∷ us) u = ap (λ (is : List ℕ). w.id ∷ is) (user_ids-append us u)

pub append-user :
    (u : User) (us : List User) (os : List Organization) (ss : List UserSession)
    → IsValidAccounts us os ss
    → member u.id (user_ids us) ≡ false
    → IsValidUser os u
    → IsValidAccounts (us ++ u ∷ []) os ss
append-user u us os ss v fresh row = record {
  unique = rw (user_ids-append us u) (NoDup-append u.id (user_ids us) v.unique fresh);
  row = λ w m. elim (In-append us (u ∷ []) w m) [
    | inl old ↦ v.row w old
    | inr (inl e) ↦ rw e row
    | inr (inr empty) ↦ absurd empty
  ];
  session = λ s m.
      let (w, n, is, active) = v.session s m in (w, In-append_left us (u ∷ []) w n, is, active);
  administered =
      let before = v.administered in
      let more = count_where-append is_active_administrator us (u ∷ []) in omega arith;
}

-- The user whom `_managed_user` finds.
to_managed_user-some :
    (os : List Organization) (o : Option User) (m : ManagedUser)
    → to_managed_user os o ≡ some m
    → o ≡ some m.user
to_managed_user-some os none m h = cc
to_managed_user-some os (some u) m h = go (find_organization u.organization_id os) h
  where
    go : (o : Option Organization) → with_organization u o ≡ some m → some u ≡ some m.user
    go none k = cc
    go (some o) k = cc

pub Returns-managed :
    {B : Type 0} (Q : B → Db → Type 0) (uid : ℕ) (k : ManagedUser → Action B) (db : Db)
    → ((m : ManagedUser) → In m.user db.users → m.user.id ≡ uid → Returns Q (k m db))
    → Returns Q ((managed_user uid >>= k) db)
unfolding managed_user
Returns-managed Q uid k db next =
    Returns-bind Q (λ m d. (d ≡ db) × In m.user db.users × (m.user.id ≡ uid)) _ k db
      (Returns-gets _ _ _ _ (
        Returns-or_raise_last _ _ _ _ λ m found.
          let (here, is) =
            find_first-In (λ (u : User). u.id == uid) db.users m.user
              (to_managed_user-some db.organizations _ m found) in
          (refl, here, ==→eq m.user.id uid is)))
      λ m d (e, here, is). rw e (next m here is)

pub hash_password-Keeps :
    (P : Db → Type 0) (secrets : Secrets) (password : Text)
    → Keeps P (hash_password secrets password)
unfolding hash_password validate_password
hash_password-Keeps P secrets password = search keeps_rules depth 30 fits 2000

-- What the assignments to the columns of a deactivation leave.
put_activity-IsValidUser :
    (env : Env) (actor : ℕ) (os : List Organization) (was is : Bool) (w : User)
    → w.is_active ≡ is
    → is_some w.deactivated_at ≡ not was
    → is_some w.deactivated_by_id ≡ not was
    → HasOrganization os w.organization_id
    → IsValidUser os (put_activity env actor (activity_change was is) w)
put_activity-IsValidUser env actor os true true w e a b h = record {
  deactivated_at = rw e a;
  deactivated_by = rw e b;
  organization = find_organization-some os w.organization_id h;
}
put_activity-IsValidUser env actor os true false w e a b h = record {
  deactivated_at = rw e refl;
  deactivated_by = rw e refl;
  organization = find_organization-some os w.organization_id h;
}
put_activity-IsValidUser env actor os false true w e a b h = record {
  deactivated_at = rw e refl;
  deactivated_by = rw e refl;
  organization = find_organization-some os w.organization_id h;
}
put_activity-IsValidUser env actor os false false w e a b h = record {
  deactivated_at = rw e a;
  deactivated_by = rw e b;
  organization = find_organization-some os w.organization_id h;
}

put_activity-rest :
    (env : Env) (actor : ℕ) (c : ActivityChange) (w : User)
    → ((put_activity env actor c w).id ≡ w.id)
      × ((put_activity env actor c w).is_active ≡ w.is_active)
      × ((put_activity env actor c w).system_role ≡ w.system_role)
put_activity-rest env actor ActivityChange.deactivates w = (refl, refl, refl)
put_activity-rest env actor ActivityChange.reactivates w = (refl, refl, refl)
put_activity-rest env actor ActivityChange.keeps_activity w = (refl, refl, refl)

-- The guard leaves an administrator: the user stays one, or there is another one.
guarded_administrator :
    (n : ℕ) (active admin is_active is_admin : Bool)
    → ((active && admin && (not is_active || not is_admin)) && leb n 1) ≡ false
    → ((admin && active) ≡ true → (is_admin && is_active) ≡ true) ⊎ (1 < n)
guarded_administrator n active admin is_active is_admin h = elim (Bool-cases (leb n 1)) [
  | inl t ↦ inl (λ k. ground (arith, t, h, k))
  | inr f ↦ inr (ground (arith, f))
]

module _ (env : Env) (actor : ℕ) (payload : UserUpdate) (u : User) where
  abbrev pub updated : User
  updated = apply_user_update env actor payload u

  apply_user_update-rest :
      (updated.id ≡ u.id)
      × (updated.is_active ≡ payload.is_active)
      × (updated.system_role ≡ payload.system_role)
  unfolding apply_user_update
  apply_user_update-rest =
      put_activity-rest env actor (activity_change u.is_active payload.is_active) _

  module _ (db : Db) (v : AreValid db) (here : In u db.users) where
    updated-IsUserEdit :
        HasOrganization db.organizations payload.organization_id
        → (removes_active_administrator u payload
            && leb (active_system_administrator_count db.users) 1)
          ≡ false
        → IsUserEdit db.users db.organizations u updated
    unfolding apply_user_update removes_active_administrator
    updated-IsUserEdit h guard =
        let (same_id, activity, role) = apply_user_update-rest in
        record {
          stands = here;
          keeps_id = same_id;
          row =
              put_activity-IsValidUser env actor db.organizations u.is_active payload.is_active _
                refl (v.row u here).deactivated_at (v.row u here).deactivated_by h;
          administrator =
              rw (activity, role)
                (guarded_administrator (active_system_administrator_count db.users) u.is_active
                  (is_system_admin_role u.system_role) payload.is_active
                  (is_system_admin_role payload.system_role) guard);
        }

    -- A user who is not active has no session.
    inactive-sessions : (s : UserSession) → In s db.sessions → s.user_id ≡ u.id → u.is_active ≡ true
    inactive-sessions s m e =
        let (w, n, is, active) = v.session s m in
        let same = same_user db.users w u v.unique n here (is ∙ e) in rw (← same) active

    revoked :
        (was is : Bool)
        → u.is_active ≡ was
        → (s : UserSession) → In s (revoke_if (activity_change was is) u.id db).sessions
        → In s db.sessions × ((s.user_id ≡ u.id) → is ≡ true)
    revoked true true e s m = (m, λ _. refl)
    revoked true false e s m =
        let (n, other) = select-In (λ (s : UserSession). not (s.user_id == u.id)) db.sessions s m in
        (n, λ same. absurd (ground (arith, same, other)))
    revoked false true e s m = (m, λ _. refl)
    revoked false false e s m = (m, λ same. let active = inactive-sessions s m same in cc)

  pub written-AreValid :
      (db : Db)
      → AreValid db
      → In u db.users
      → HasOrganization db.organizations payload.organization_id
      → (removes_active_administrator u payload
          && leb (active_system_administrator_count db.users) 1)
        ≡ false
      → IsValidAccounts
          (put_user updated db.users)
          db.organizations
          (revoke_if (activity_change u.is_active payload.is_active) u.id db).sessions
  written-AreValid db v here h guard =
      let (_, activity, _) = apply_user_update-rest in
      put_user-IsValidAccounts db.users db.organizations db.sessions _ u updated v
        (updated-IsUserEdit db v here h guard)
        λ s m.
          let (n, active) = revoked db v here u.is_active payload.is_active refl s m in
          (n, λ same. activity ∙ active same)

-- The sessions that go are the only tables' change of `revoke_if`.
pub revoke_if-rest :
    (c : ActivityChange) (uid : ℕ) (db : Db)
    → revoke_if c uid db ≡ record db { sessions = (revoke_if c uid db).sessions }
revoke_if-rest ActivityChange.deactivates uid db = refl
revoke_if-rest ActivityChange.reactivates uid db = refl
revoke_if-rest ActivityChange.keeps_activity uid db = refl
