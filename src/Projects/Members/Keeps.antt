-- ===== src/Projects/Members/Keeps.antt =====
-- Adding, changing and removing participants keeps the tables valid: every project keeps an
-- administrator, and the open tickets keep assignees who take part.
use task_ticket_management_s.Prelude.{
  ℕ, ◌<◌, ◌≡◌, refl, Bool, true, false, not, some, ◌&&◌, ◌==◌, is_some, arith, Bool-cases, inl, inr,
  ◌⊎◌, In, find_first-In, member, ==→eq, &&-true, &&-false_right, Text,
}
use task_ticket_management_s.Codes.{ProjectRole, role_eq}
use task_ticket_management_s.Store.{Project, ProjectMember, Ticket, Db}
use task_ticket_management_s.Action.{Env, Action}
use task_ticket_management_s.Action.Triple.{
  Returns, Returns-pure, Returns-bind, Returns-raise_if, Returns-raise_if_last, Returns-or_raise,
  Returns-or_raise_last, Returns-gets, Returns-modify, transaction_keeps,
}
use task_ticket_management_s.Projects.Queries.{
  find_user, is_open, is_membership, project_member, project_administrator_count, is_admin_of,
  has_active_ticket_assignments,
}
use task_ticket_management_s.Projects.Access.{ProjectView}
use task_ticket_management_s.Projects.Access.Rules.{Returns-access}
use task_ticket_management_s.Projects.Settings.{put_member, set_members, new_member}
use task_ticket_management_s.Projects.Settings.Keeps.{Returns-lock, append-IsValidMembers}
use task_ticket_management_s.Projects.Members.{
  add_member_body, add_project_member, require_role_change_allowed, project_member_view,
  is_last_administrator, change_role, either, update_role_body, update_project_member_role,
  require_member_removal_constraints, without_member, remove_member_body, remove_project_member,
  MemberView,
}
use task_ticket_management_s.Projects.Members.Rows.{
  member_ids, same_member, without-NoDup, count_where-without, count_where-without_other,
  any-without,
}
use task_ticket_management_s.Projects.Members.Replaced.{
  IsReplacement, put_member-IsValidMembers, put_member-KeepsAssignees,
}
use task_ticket_management_s.Tickets.Queries.{is_assignable}
use task_ticket_management_s.Validity.{IsValid}
use task_ticket_management_s.Validity.Members.{
  members-IsValidTickets, append-KeepsAssignees, unassigned,
}

-- The membership stands in the table, in the project.
abbrev IsMember : Db → ℕ → ProjectMember → Type 0
IsMember db pid m = In m db.members × (m.project_id ≡ pid)

pub project_member-facts :
    (db : Db) (pid mid : ℕ) (m : ProjectMember)
    → project_member db pid mid ≡ some m
    → IsMember db pid m
project_member-facts db pid mid m h =
    let (i, q) = find_first-In _ db.members m h in
    let (front, _) =
      &&-true ((m.project_id == pid) && (m.id == mid)) (is_some (find_user m.user_id db.users)) q in
    (i, ==→eq m.project_id pid (&&-true (m.project_id == pid) (m.id == mid) front).0)

-- The guard on the last administrator: another one is there if the member is one.
pub others_administer :
    (db : Db) (pid : ℕ) (m : ProjectMember)
    → m.project_id ≡ pid
    → role_eq m.role ProjectRole.admin ≡ true
    → is_last_administrator db pid m ≡ false
    → 1 < project_administrator_count db.members m.project_id
others_administer db pid m here admin guard =
    rw here
      (let more = &&-false_right (role_eq m.role ProjectRole.admin) _ admin guard in ground arith)

module _ (db : Db) (pid : ℕ) (m : ProjectMember) (valid : IsValid db)
    (here : IsMember db pid m) where
  removed-administered :
      is_last_administrator db pid m ≡ false
      → (p : Project) → In p db.projects
      → 0 < project_administrator_count (without_member m.id db.members) p.id
  removed-administered guard p i =
      let before = valid.2.administered p i in
      elim (Bool-cases (is_admin_of p.id m)) [
        | inl e ↦
            let (project, admin) =
              &&-true (m.project_id == p.id) (role_eq m.role ProjectRole.admin) e in
            let more : 1 < project_administrator_count db.members p.id =
              rw (← (==→eq m.project_id p.id project))
                (others_administer db pid m here.1 admin guard) in
            let lost = count_where-without (is_admin_of p.id) m.id db.members valid.2.unique in
            omega arith
        | inr e ↦
            let kept = count_where-without_other (is_admin_of p.id) m.id db.members λ n j h.
              elim (Bool-cases (n.id == m.id)) [
                | inl f ↦
                    let same =
                      same_member db.members n m valid.2.unique j here.0 (==→eq n.id m.id f) in
                    let both : is_admin_of p.id m ≡ true = rw (← same) h in absurd (cc)
                | inr f ↦ f
              ] in
            omega arith
      ]

  removed-IsValid :
      is_last_administrator db pid m ≡ false
      → has_active_ticket_assignments db.tickets pid m.user_id ≡ false
      → IsValid (set_members (without_member m.id db.members) db)
  removed-IsValid guard free = (
    members-IsValidTickets db.tickets db.members (without_member m.id db.members) valid.0
        (λ t i u e opened h.
          any-without (is_assignable t.project_id u) m db.members valid.2.unique here.0
            (unassigned db.tickets pid m t u free here.1 i e opened) h),
    valid.1,
    record {
      unique = without-NoDup m.id db.members valid.2.unique;
      administered = removed-administered guard;
    },
  )

  -- The guards on a role change.
  abbrev Allowed : ProjectRole → Type 0
  Allowed r =
      ((not (role_eq r ProjectRole.admin) && is_last_administrator db pid m) ≡ false)
      × ((role_eq r ProjectRole.guest && has_active_ticket_assignments db.tickets pid m.user_id)
          ≡ false)

  stays_administered :
      (r : ProjectRole)
      → Allowed r
      → (role_eq m.role ProjectRole.admin ≡ true → role_eq r ProjectRole.admin ≡ true)
        ⊎ (1 < project_administrator_count db.members m.project_id)
  stays_administered r allowed = elim (Bool-cases (role_eq r ProjectRole.admin)) [
    | inl stays ↦ inl (λ _. stays)
    | inr steps_down ↦ elim (Bool-cases (role_eq m.role ProjectRole.admin)) [
      | inl admin ↦ inr (others_administer db pid m here.1 admin (rw steps_down at (allowed.0)))
      | inr other ↦ inl (λ h. cc)
    ]
  ]

  still_assignable :
      (r : ProjectRole) (t : Ticket) (u : ℕ)
      → Allowed r
      → In t db.tickets
      → t.assignee_id ≡ some u
      → is_open t ≡ true
      → is_assignable t.project_id u m ≡ true
      → is_assignable t.project_id u (record m { role = r }) ≡ true
  still_assignable r t u allowed i e opened h = elim (Bool-cases (role_eq r ProjectRole.guest)) [
    | inl guest ↦
        let serves_none =
          unassigned db.tickets pid m t u (rw guest at (allowed.1)) here.1 i e opened in
        absurd (cc)
    | inr worker ↦
        let (same, _) = &&-true (is_membership t.project_id u m) _ h in rw (same, worker) refl
  ]

  changed-IsValid :
      (r : ProjectRole)
      → Allowed r
      → IsValid (set_members (put_member (record m { role = r }) db.members) db)
  changed-IsValid r allowed =
      let c = record m { role = r } in
      let place : IsReplacement db.members m c = record {
        old_row = here.0;
        keeps_id = refl;
        keeps_project = refl;
        keeps_user = refl;
      } in
      (
        members-IsValidTickets db.tickets db.members (put_member c db.members) valid.0 (
            put_member-KeepsAssignees db.projects db.members m c valid.2 place db.tickets
              λ t i u e opened h. still_assignable r t u allowed i e opened h),
        valid.1,
        put_member-IsValidMembers db.projects db.members m c valid.2 place
            (stays_administered r allowed),
      )

project_member_view-Returns :
    (P : Db → Type 0) (pid mid : ℕ) (db : Db)
    → P db
    → Returns (λ _ d. P d) (project_member_view pid mid db)
unfolding project_member_view
project_member_view-Returns P pid mid db h =
    Returns-gets _ _ _ db (Returns-or_raise_last _ _ _ db λ _ _. h)

require_role_change_allowed-Returns :
    (p : ProjectView) (m : ProjectMember) (b : Bool) (r : ProjectRole) (db : Db)
    → Returns (λ _ d. d ≡ db) (require_role_change_allowed p m b r db)
unfolding require_role_change_allowed
require_role_change_allowed-Returns p m b r db =
    Returns-raise_if _ _ _ _ db λ _. Returns-raise_if_last _ _ _ db λ _. refl

pub require_removal-Returns :
    (pid : ℕ) (m : ProjectMember) (db : Db)
    → Returns
        (λ _ d.
          (d ≡ db)
          × (is_last_administrator db pid m ≡ false)
          × (has_active_ticket_assignments db.tickets pid m.user_id ≡ false))
        (require_member_removal_constraints pid m db)
unfolding require_member_removal_constraints
require_removal-Returns pid m db = Returns-gets _ _ _ db (
    Returns-raise_if _ _ _ _ db λ guard. Returns-raise_if_last _ _ _ db λ free. (refl, guard, free))

change_role-Returns :
    (actor : ℕ) (p : ProjectView) (m : ProjectMember) (r : ProjectRole) (db : Db)
    → IsValid db
    → IsMember db p.id m
    → Returns (λ (_ : MemberView) d. IsValid d) (change_role actor p m r db)
unfolding change_role
change_role-Returns actor p m r db valid here = Returns-gets _ _ _ db (
    Returns-bind _ _ _ _ db (require_role_change_allowed-Returns p m _ r db) λ _ d same. rw same (
      Returns-raise_if _ _ _ _ db λ administered. Returns-raise_if _ _ _ _ db λ assigned.
        Returns-modify _ _ _ _ (
          Returns-modify _ _ _ _ (
            project_member_view-Returns IsValid _ _ _
              (changed-IsValid db p.id m valid here r (administered, assigned))))))

either-Returns :
    (Q : MemberView → Db → Type 0) (b : Bool) (m k : Action MemberView) (db : Db)
    → Returns Q (m db)
    → Returns Q (k db)
    → Returns Q (either b m k db)
unfolding either
either-Returns Q true m k db h g = h
either-Returns Q false m k db h g = g

module _ (actor : ℕ) (key : Text) (db : Db) (valid : IsValid db) where
  add_member_body-Returns :
      (env : Env) (uid : ℕ) (r : ProjectRole)
      → member env.new_member_id (member_ids db.members) ≡ false
      → Returns (λ (_ : ℕ) d. IsValid d) (add_member_body env actor key uid r db)
  unfolding add_member_body
  add_member_body-Returns env uid r fresh = Returns-access _ _ _ _ db _ _ λ p xs access.
      Returns-raise_if _ _ _ _ _ λ _. Returns-gets _ _ _ _ (
        Returns-raise_if _ _ _ _ _ λ _. Returns-raise_if _ _ _ _ _ λ _. Returns-modify _ _ _ _ (
          Returns-modify _ _ _ _ (
            Returns-pure _ _ _ (
              members-IsValidTickets _ _ _ valid.0 (append-KeepsAssignees _ _ _),
              valid.1,
              append-IsValidMembers _ _ valid.2 (new_member env p.id uid r) fresh,
            ))))

  -- `add_project_member`: if the id of the new membership is not in use, then if the tables are
  -- valid beforehand, they are valid afterwards, whether the call returns or raises.
  pub add_project_member-IsValid :
      (env : Env) (uid : ℕ) (r : ProjectRole)
      → member env.new_member_id (member_ids db.members) ≡ false
      → IsValid (add_project_member env actor key uid r db).1
  unfolding add_project_member
  add_project_member-IsValid env uid r fresh =
      transaction_keeps _ IsValid _ db valid (λ _ _ h. h) (add_member_body-Returns env uid r fresh)

  update_role_body-Returns :
      (mid : ℕ) (r : ProjectRole)
      → Returns (λ (_ : MemberView) d. IsValid d) (update_role_body actor key mid r db)
  unfolding update_role_body
  update_role_body-Returns mid r = Returns-access _ _ _ _ db _ _ λ p xs access.
      let d0 : Db = record db { audits = xs } in
      Returns-lock actor d0 _ _ _ λ _. Returns-gets _ _ _ d0 (
        Returns-or_raise _ _ _ _ d0 λ m found.
          either-Returns _ _ _ _ d0 (project_member_view-Returns IsValid _ _ d0 valid)
            (change_role-Returns actor p m r d0 valid (project_member-facts d0 p.id mid m found)))

  -- `update_project_member_role`: if the tables are valid beforehand, they are valid afterwards,
  -- whether the call returns or raises. So no project loses its last administrator, and nobody who
  -- is assigned an open ticket of the project becomes a guest.
  pub update_project_member_role-IsValid :
      (mid : ℕ) (r : ProjectRole) → IsValid (update_project_member_role actor key mid r db).1
  unfolding update_project_member_role
  update_project_member_role-IsValid mid r =
      transaction_keeps _ IsValid _ db valid (λ _ _ h. h) (update_role_body-Returns mid r)

  remove_member_body-Returns :
      (mid : ℕ) → Returns (λ (_ : ℕ) d. IsValid d) (remove_member_body actor key mid db)
  unfolding remove_member_body
  remove_member_body-Returns mid = Returns-access _ _ _ _ db _ _ λ p xs access.
      let d0 : Db = record db { audits = xs } in
      Returns-lock actor d0 _ _ _ λ _. Returns-gets _ _ _ d0 (
        Returns-or_raise _ _ _ _ d0 λ m found.
          Returns-bind _ _ _ _ d0 (require_removal-Returns p.id m d0) λ _ d (same, guard, free).
            rw same (
              Returns-modify _ _ _ _ (
                Returns-modify _ _ _ _ (
                  Returns-pure _ _ _ (
                    removed-IsValid d0 p.id m valid (project_member-facts d0 p.id mid m found) guard
                      free)))))

  -- `remove_project_member`: if the tables are valid beforehand, they are valid afterwards,
  -- whether the call returns or raises. So no project loses its last administrator, and nobody who
  -- is assigned an open ticket of the project leaves it.
  pub remove_project_member-IsValid : (mid : ℕ) → IsValid (remove_project_member actor key mid db).1
  unfolding remove_project_member
  remove_project_member-IsValid mid =
      transaction_keeps _ IsValid _ db valid (λ _ _ h. h) (remove_member_body-Returns mid)
