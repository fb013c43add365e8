-- ===== src/Projects/Members/Added.antt =====
-- What `add_project_member` has checked when it returns, and what it has written.
use task_ticket_management_s.Prelude.{
  ℕ, ◌≡◌, ◌≢◌, refl, true, false, not-false, List, [], ◌∷◌, ◌++◌, ◌&&◌, ◌==◌, ==→eq, ==_refl,
  &&-true, any, any-In, any-false, In, Text,
}
use task_ticket_management_s.Codes.{ProjectRole}
use task_ticket_management_s.Store.{User, ProjectMember, AuditLog, Db}
use task_ticket_management_s.Action.{Env, ok}
use task_ticket_management_s.Action.Triple.{
  Returns, Returns-gets, Returns-raise_if, Returns-modify, Returns-pure, Returns-elim,
  Returns-transaction,
}
use task_ticket_management_s.Projects.Queries.{is_membership}
use task_ticket_management_s.Projects.Access.{ProjectView}
use task_ticket_management_s.Projects.Access.Rules.{HasAccess, Returns-access}
use task_ticket_management_s.Projects.Members.{add_member_body, add_project_member}

-- The membership with the id `i` is new: who added it, to what, whom, and all that has changed.
pub record IsAdded (env : Env) (actor : ℕ) (key : Text) (uid : ℕ) (r : ProjectRole) (db : Db)
    (i : ℕ) (d : Db) : Type 0 where
  pub project : ProjectView
  pub access : HasAccess db true false actor key project
  pub project_is_active : project.is_active ≡ true
  pub user : User
  pub user_row : In user db.users
  pub is_user : user.id ≡ uid
  pub user_is_active : user.is_active ≡ true
  pub no_member_yet :
      (m : ProjectMember) → In m db.members → m.project_id ≡ project.id → m.user_id ≢ uid
  pub answer : i ≡ env.new_member_id
  pub audits : List AuditLog
  pub written : d ≡ record db {
    members =
        db.members
        ++ record {
          id = env.new_member_id;
          project_id = project.id;
          user_id = uid;
          role = r;
          is_favorite = false;
        }
          ∷ [];
    audits = audits;
  }

no_membership :
    (db : Db) (pid uid : ℕ)
    → any (is_membership pid uid) db.members ≡ false
    → (m : ProjectMember) → In m db.members
    → m.project_id ≡ pid
    → m.user_id ≢ uid
no_membership db pid uid h m n e f =
    let absent = any-false (is_membership pid uid) db.members m h n in
    let there : is_membership pid uid m ≡ true = rw (e, f, ==_refl pid, ==_refl uid) refl in
    absurd (cc)

add_member_body-Returns :
    (env : Env) (actor : ℕ) (key : Text) (uid : ℕ) (r : ProjectRole) (db : Db)
    → Returns (IsAdded env actor key uid r db) (add_member_body env actor key uid r db)
unfolding add_member_body
add_member_body-Returns env actor key uid r db = Returns-access _ _ _ _ db _ _ λ p xs access.
    Returns-raise_if _ _ _ _ _ λ active_project. Returns-gets _ _ _ _ (
      Returns-raise_if _ _ _ _ _ λ known. Returns-raise_if _ _ _ _ _ λ fresh.
        Returns-modify _ _ _ _ (
          Returns-modify _ _ _ _ (
            let (u, m, h) =
              any-In (λ (u : User). (u.id == uid) && u.is_active) db.users (not-false _ known) in
            let (is_u, active) = &&-true (u.id == uid) u.is_active h in
            Returns-pure _ _ _ (record {
              project = p;
              access = access;
              project_is_active = not-false _ active_project;
              user = u;
              user_row = m;
              is_user = ==→eq u.id uid is_u;
              user_is_active = active;
              no_member_yet = no_membership db p.id uid fresh;
              answer = refl;
              audits = _;
              written = refl;
            }))))

-- If `add_project_member` returns, then the actor is an active user with a current password who
-- may manage the project of that key, the project is active, the user who is added has an active
-- row, and no membership in the project was that user's. The answer is the id of the new
-- membership, which stands at the end of the memberships with the project, the user and the role,
-- and but for it and the audit log the tables are as they were.
pub add_project_member-IsAdded :
    (env : Env) (actor : ℕ) (key : Text) (uid : ℕ) (r : ProjectRole) (db : Db) (i : ℕ)
    → (add_project_member env actor key uid r db).0 ≡ ok i
    → IsAdded env actor key uid r db i (add_project_member env actor key uid r db).1
unfolding add_project_member
add_project_member-IsAdded env actor key uid r db i returns =
    Returns-elim (IsAdded env actor key uid r db) _ i
      (Returns-transaction _ _ _ (add_member_body-Returns env actor key uid r db)) returns
