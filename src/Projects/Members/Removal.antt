-- ===== src/Projects/Members/Removal.antt =====
-- What `remove_project_member` has checked when it returns, and what it has written.
use task_ticket_management_s.Prelude.{
  ℕ, ◌<◌, ◌≡◌, ◌≢◌, refl, ◌∙◌, true, false, not, none, some, Option, List, ◌&&◌, ◌==◌, ==→eq,
  ==_refl, &&-true, Bool-cases, option_eq, any-false, is_some, select-In, In-select, find_first-In,
  In, Text, ◌⊎◌, inl, inr, count_where,
}
use task_ticket_management_s.Codes.{ProjectRole, TicketStatus, role_eq}
use task_ticket_management_s.Store.{ProjectMember, Ticket, AuditLog, Db}
use task_ticket_management_s.Action.{ok}
use task_ticket_management_s.Action.Triple.{
  Returns, Returns-bind, Returns-gets, Returns-or_raise, Returns-modify, Returns-pure, Returns-elim,
  Returns-transaction,
}
use task_ticket_management_s.Projects.Queries.{
  project_member, find_user, is_open, has_active_ticket_assignments,
}
use task_ticket_management_s.Projects.Access.{ProjectView}
use task_ticket_management_s.Projects.Access.Rules.{HasAccess, Returns-access}
use task_ticket_management_s.Projects.Settings.Keeps.{Returns-lock}
use task_ticket_management_s.Projects.Members.{
  is_last_administrator, without_member, remove_member_body, remove_project_member,
}
use task_ticket_management_s.Projects.Members.Keeps.{require_removal-Returns, others_administer}

-- A ticket that nobody needs to work on.
abbrev pub IsSettled : Ticket → Type 0
IsSettled t =
    (t.deleted_at ≡ none → ⊥)
    ⊎ ((t.status ≡ TicketStatus.done) ⊎ (t.status ≡ TicketStatus.cancelled))

-- The membership with the id `mid`, of the user `u`, is gone: who removed it, from what, and what
-- has been found of the member.
pub record IsRemoved (actor : ℕ) (key : Text) (mid : ℕ) (db : Db) (u : ℕ) (d : Db) : Type 0 where
  pub project : ProjectView
  pub access : HasAccess db true false actor key project
  pub row : ProjectMember
  pub stood : In row db.members
  pub is_row : row.id ≡ mid
  pub of_project : row.project_id ≡ project.id
  pub of_user : row.user_id ≡ u
  pub no_longer : (m : ProjectMember) → In m d.members → In m db.members × (m.id ≢ mid)
  pub others_stay : (m : ProjectMember) → In m db.members → m.id ≢ mid → In m d.members
  pub not_the_last :
      row.role ≡ ProjectRole.admin
      → 1
        < count_where
            (λ m. (m.project_id == project.id) && role_eq m.role ProjectRole.admin)
            db.members
  pub is_free :
      (t : Ticket)
      → In t db.tickets
      → t.project_id ≡ project.id
      → t.assignee_id ≡ some u
      → IsSettled t
  pub audits : List AuditLog
  pub rest : d ≡ record db { members = d.members; audits = audits }

closed-IsSettled : (t : Ticket) → is_open t ≡ false → IsSettled t
closed-IsSettled t h = go t.deleted_at t.status refl refl
  where
    go : (o : Option ℕ) (s : TicketStatus) → t.deleted_at ≡ o → t.status ≡ s → IsSettled t
    go (some n) s e f = inl (λ g. cc)
    go none TicketStatus.done e f = inr (inl f)
    go none TicketStatus.cancelled e f = inr (inr f)
    go none TicketStatus.todo e f = let opened : true ≡ false = rw (e, f) at h in cc
    go none TicketStatus.in_progress e f = let opened : true ≡ false = rw (e, f) at h in cc
    go none TicketStatus.on_hold e f = let opened : true ≡ false = rw (e, f) at h in cc

free-IsSettled :
    (db : Db) (pid u : ℕ)
    → has_active_ticket_assignments db.tickets pid u ≡ false
    → (t : Ticket) → In t db.tickets
    → t.project_id ≡ pid
    → t.assignee_id ≡ some u
    → IsSettled t
free-IsSettled db pid u h t m e f =
    let absent =
      any-false
        (λ (t : Ticket). (t.project_id == pid) && option_eq t.assignee_id (some u) && is_open t)
        db.tickets t h m in
    closed-IsSettled t (rw (e, f, ==_refl pid, ==_refl u) at absent)

-- The row that the join finds.
project_member-row :
    (db : Db) (pid mid : ℕ) (m : ProjectMember)
    → project_member db pid mid ≡ some m
    → In m db.members × (m.project_id ≡ pid) × (m.id ≡ mid)
project_member-row db pid mid m h =
    let (i, q) = find_first-In _ db.members m h in
    let (front, _) =
      &&-true ((m.project_id == pid) && (m.id == mid)) (is_some (find_user m.user_id db.users)) q in
    let (project, id) = &&-true (m.project_id == pid) (m.id == mid) front in
    (i, ==→eq m.project_id pid project, ==→eq m.id mid id)

different : (a b : ℕ) → a ≢ b → not (a == b) ≡ true
different a b h = elim (Bool-cases (a == b)) [
  | inl t ↦ absurd (h (==→eq a b t))
  | inr f ↦ rw f refl
]

removed :
    (actor : ℕ) (key : Text) (mid : ℕ) (db : Db) (p : ProjectView) (m : ProjectMember)
    (xs : List AuditLog)
    → HasAccess db true false actor key p
    → In m db.members × (m.project_id ≡ p.id) × (m.id ≡ mid)
    → is_last_administrator db p.id m ≡ false
    → has_active_ticket_assignments db.tickets p.id m.user_id ≡ false
    → IsRemoved actor key mid db m.user_id
        (record db { members = without_member m.id db.members; audits = xs })
removed actor key mid db p m xs access (stood, of_project, is_row) guard free = record {
  project = p;
  access = access;
  row = m;
  stood = stood;
  is_row = is_row;
  of_project = of_project;
  of_user = refl;
  no_longer = λ x n.
      let (i, h) = select-In (λ (x : ProjectMember). not (x.id == m.id)) db.members x n in
      (i, λ same. let equal : (x.id == m.id) ≡ true = rw (same, is_row, ==_refl mid) refl in cc);
  others_stay = λ x n h.
      In-select (λ (x : ProjectMember). not (x.id == m.id)) db.members x n
        (different x.id m.id (λ same. h (same ∙ is_row)));
  not_the_last =
      λ admin. rw (← of_project) (others_administer db p.id m of_project (rw admin refl) guard);
  is_free = free-IsSettled db p.id m.user_id free;
  audits = xs;
  rest = refl;
}

remove_member_body-Returns :
    (actor : ℕ) (key : Text) (mid : ℕ) (db : Db)
    → Returns (IsRemoved actor key mid db) (remove_member_body actor key mid db)
unfolding remove_member_body
remove_member_body-Returns actor key mid db = Returns-access _ _ _ _ db _ _ λ p xs access.
    let d0 : Db = record db { audits = xs } in
    Returns-lock actor d0 _ _ _ λ _. Returns-gets _ _ _ d0 (
      Returns-or_raise _ _ _ _ d0 λ m found.
        Returns-bind _ _ _ _ d0 (require_removal-Returns p.id m d0) λ _ d (same, guard, free).
          rw same (
            Returns-modify _ _ _ _ (
              Returns-modify _ _ _ _ (
                Returns-pure _ _ _ (
                  removed actor key mid db p m _ access (project_member-row d0 p.id mid m found)
                    guard free)))))

-- If `remove_project_member` returns a user, then the actor is an active user with a current
-- password who may manage the project of that key, and a membership with the given id stood in it
-- and was that user's. The memberships with that id are gone and all others stay, and but for them
-- and the audit log the tables are as they were. If the membership was an administrator's, the
-- project had another one; and each ticket of the project that is assigned to the user is in the
-- trash, done or cancelled.
pub remove_project_member-IsRemoved :
    (actor : ℕ) (key : Text) (mid : ℕ) (db : Db) (u : ℕ)
    → (remove_project_member actor key mid db).0 ≡ ok u
    → IsRemoved actor key mid db u (remove_project_member actor key mid db).1
unfolding remove_project_member
remove_project_member-IsRemoved actor key mid db u returns =
    Returns-elim (IsRemoved actor key mid db) _ u
      (Returns-transaction _ _ _ (remove_member_body-Returns actor key mid db)) returns
