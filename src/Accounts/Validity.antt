-- ===== src/Accounts/Validity.antt =====
-- What the tables of app/models/identity.py satisfy: unique ids, users whose deactivation is marked,
-- users with an organization, sessions of active users only, and an active system administrator.
use task_ticket_management_s.Prelude.{
  ℕ, ◌+◌, ◌≤◌, ◌<◌, ◌≡◌, refl, sym, ap, ◌∙◌, ◌⊎◌, inl, inr, Bool, true, false, not, List, [], ◌∷◌,
  map, ◌==◌, ==→eq, Bool-cases, if◌then◌else◌, is_some, member, In, In-map, map-In, any-false,
  count_where, count_where-map, arith,
}
use task_ticket_management_s.Store.{User, Organization, UserSession, Db}
use task_ticket_management_s.Accounts.Queries.{
  find_organization, is_active_administrator, active_system_administrator_count,
}
use task_ticket_management_s.Accounts.Users.{put_user}
use task_ticket_management_s.Validity.Ids.{NoDup}

abbrev pub user_ids : List User → List ℕ
user_ids us = map (λ u. u.id) us

pub record IsValidUser (os : List Organization) (u : User) : Type 0 where
  pub deactivated_at : is_some u.deactivated_at ≡ not u.is_active
  pub deactivated_by : is_some u.deactivated_by_id ≡ not u.is_active
  pub organization : is_some (find_organization u.organization_id os) ≡ true

-- The user of the session, who is active.
abbrev pub HasActiveUser : List User → UserSession → Type 0
HasActiveUser us s = (u : User) × In u us × (u.id ≡ s.user_id) × (u.is_active ≡ true)

pub record IsValidAccounts (us : List User) (os : List Organization) (ss : List UserSession)
    : Type 0 where
  pub unique : NoDup (user_ids us)
  pub row : (u : User) → In u us → IsValidUser os u
  pub session : (s : UserSession) → In s ss → HasActiveUser us s
  pub administered : 0 < active_system_administrator_count us

abbrev pub AreValid : Db → Type 0
AreValid db = IsValidAccounts db.users db.organizations db.sessions

pub same_user :
    (us : List User) (u w : User) → NoDup (user_ids us) → In u us → In w us → u.id ≡ w.id → u ≡ w
same_user [] u w d m n e = absurd m
same_user (x ∷ us) u w d (inl h) (inl k) e = cc
same_user (x ∷ us) u w d (inl h) (inr n) e =
    let absent =
      any-false (λ (i : ℕ). i == x.id) (user_ids us) w.id d.0
        (In-map (λ (v : User). v.id) us w n) in
    absurd (ground (arith, h, ap (λ (v : User). v.id) h))
same_user (x ∷ us) u w d (inr m) (inl k) e =
    let absent =
      any-false (λ (i : ℕ). i == x.id) (user_ids us) u.id d.0
        (In-map (λ (v : User). v.id) us u m) in
    absurd (ground (arith, k, ap (λ (v : User). v.id) k))
same_user (x ∷ us) u w d (inr m) (inr n) e = same_user us u w d.1 m n e

-- Fewer sessions, other users' rows unchanged: what a service that writes one user's row leaves.
pub record IsUserEdit (us : List User) (os : List Organization) (old changed : User) : Type 0 where
  pub stands : In old us
  pub keeps_id : changed.id ≡ old.id
  pub row : IsValidUser os changed
  pub administrator :
      ((is_active_administrator old ≡ true → is_active_administrator changed ≡ true)
        ⊎ (1 < active_system_administrator_count us))

abbrev pub put : User → User → User
put changed u = if u.id == changed.id then changed else u

module _ (us : List User) (os : List Organization) (old changed : User)
    (unique : NoDup (user_ids us)) (edit : IsUserEdit us os old changed) where
  pub put_same : (u : User) → In u us → u.id ≡ changed.id → u ≡ old
  put_same u m e = same_user us u old unique m edit.stands (e ∙ edit.keeps_id)

  pub put-id : (u : User) → In u us → (put changed u).id ≡ u.id
  put-id u m = elim (Bool-cases (u.id == changed.id)) [
    | inl t ↦ rw t (sym (==→eq u.id changed.id t))
    | inr f ↦ rw f refl
  ]

-- Rows that have other ids stay.
count-put_absent :
    (p : User → Bool) (changed : User) (us : List User)
    → member changed.id (user_ids us) ≡ false
    → count_where p us ≤ count_where p (put_user changed us)
count-put_absent p changed us absent = count_where-map p (put changed) us λ u m h.
    let other =
      any-false (λ (i : ℕ). i == changed.id) (user_ids us) u.id absent
        (In-map (λ (v : User). v.id) us u m) in
    rw other h

-- One replaced row takes one from the count at most.
pub count-put :
    (p : User → Bool) (changed : User) (us : List User)
    → NoDup (user_ids us)
    → count_where p us ≤ count_where p (put_user changed us) + 1
count-put p changed [] d = omega arith
count-put p changed (x ∷ us) d = elim (Bool-cases (x.id == changed.id)) [
  | inl t ↦
      let absent : member changed.id (user_ids us) ≡ false =
        rw (← (==→eq x.id changed.id t)) (d.0) in
      let rest = count-put_absent p changed us absent in
      rw t (elim (Bool-cases (p x)) [
        | inl a ↦ rw a (elim (Bool-cases (p changed)) [
          | inl b ↦ rw b (omega arith)
          | inr b ↦ rw b (omega arith)
        ])
        | inr a ↦ rw a (elim (Bool-cases (p changed)) [
          | inl b ↦ rw b (omega arith)
          | inr b ↦ rw b (omega arith)
        ])
      ])
  | inr f ↦
      let rest = count-put p changed us d.1 in
      rw f (elim (Bool-cases (p x)) [ inl a ↦ rw a (omega arith) | inr a ↦ rw a (omega arith) ])
]

user_ids-map :
    (f : User → User) (us : List User)
    → ((u : User) → In u us → (f u).id ≡ u.id)
    → user_ids (map f us) ≡ user_ids us
user_ids-map f [] keep = refl
user_ids-map f (u ∷ us) keep =
    let rest = user_ids-map f us (λ w m. keep w (inr m)) in let first = keep u (inl refl) in cc

module _ (us : List User) (os : List Organization) (ss ss' : List UserSession) (old changed : User)
    (v : IsValidAccounts us os ss) (edit : IsUserEdit us os old changed) where
  put-administered : 0 < active_system_administrator_count (put_user changed us)
  put-administered = elim edit.administrator [
    | inl stays ↦
        let before = v.administered in
        let kept = count_where-map is_active_administrator (put changed) us λ u m h.
          elim (Bool-cases (u.id == changed.id)) [
            | inl t ↦
                let same = put_same us os old changed v.unique edit u m (==→eq u.id changed.id t) in
                rw t (stays (rw (← same) h))
            | inr f ↦ rw f h
          ] in
        omega arith
    | inr other ↦ let lost = count-put is_active_administrator changed us v.unique in omega arith
  ]

  put-row : (u : User) → In u us → IsValidUser os (put changed u)
  put-row u m = elim (Bool-cases (u.id == changed.id)) [
    | inl t ↦ rw t edit.row
    | inr f ↦ rw f (v.row u m)
  ]

  put-session :
      ((s : UserSession) → In s ss' → In s ss × ((s.user_id ≡ old.id) → changed.is_active ≡ true))
      → (s : UserSession) → In s ss'
      → HasActiveUser (put_user changed us) s
  put-session keeps s m =
      let (n, active) = keeps s m in
      let (u, i, is, was) = v.session s n in
      elim (Bool-cases (u.id == changed.id)) [
        | inl t ↦
            let same = put_same us os old changed v.unique edit u i (==→eq u.id changed.id t) in
            let mine : s.user_id ≡ old.id = sym is ∙ ap (λ (w : User). w.id) same in
            (
              put changed u,
              In-map (put changed) us u i,
              put-id us os old changed v.unique edit u i ∙ is,
              rw t (active mine),
            )
        | inr f ↦ (
          put changed u,
          In-map (put changed) us u i,
          put-id us os old changed v.unique edit u i ∙ is,
          rw f was,
        )
      ]

  -- One user's row is written; sessions go, and stay only where their user stays active.
  pub put_user-IsValidAccounts :
      ((s : UserSession) → In s ss' → In s ss × ((s.user_id ≡ old.id) → changed.is_active ≡ true))
      → IsValidAccounts (put_user changed us) os ss'
  put_user-IsValidAccounts keeps = record {
    unique = rw (user_ids-map (put changed) us (put-id us os old changed v.unique edit)) v.unique;
    row = λ w n. let (u, m, e) = map-In (put changed) us w n in rw e (put-row u m);
    session = put-session keeps;
    administered = put-administered;
  }
