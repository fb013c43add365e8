-- ===== src/Projects/Access/Rules.antt =====
-- Who gets past `require_project_member`, and the rule by which the services' proofs pass it.
use task_ticket_management_s.Prelude.{
  ℕ, ◌≡◌, refl, Bool, true, false, not, ◌&&◌, ◌||◌, Option, none, some, List, Text, text_eq, In,
  find_first, find_first-In, &&-true, not-false, is_some, arith,
}
use task_ticket_management_s.Codes.{ProjectRole}
use task_ticket_management_s.Store.{User, Project, ProjectMember, AuditLog, Db}
use task_ticket_management_s.Action.{Action, ◌>>=◌, modify}
use task_ticket_management_s.Action.Triple.{
  Returns, Returns-pure, Returns-bind, Returns-gets, Returns-or_raise, Returns-raise_if,
}
use task_ticket_management_s.Projects.Queries.{
  find_user, find_membership, membership_role, membership_favorite, ProjectAccess,
  accessible_project, to_access, access_row,
}
use task_ticket_management_s.Projects.Access.{
  ProjectView, is_system_administrator, is_system_admin_role, is_project_admin, is_project_writer,
  build_project_view, require_project_member, when,
}

-- The actor is an active user whose password is not due to be changed.
pub record IsActiveActor (db : Db) (actor : ℕ) (administrator : Bool) : Type 0 where
  pub user : User
  pub found : find_user actor db.users ≡ some user
  pub active : user.is_active ≡ true
  pub password : user.must_change_password ≡ false
  pub administers : administrator ≡ is_system_admin_role user.system_role

abbrev pub role_in : Db → ℕ → Project → Option ProjectRole
role_in db actor p = membership_role (find_membership p.id actor db.members)

-- What `require_project_member` has checked when it returns the view `p`.
pub record HasAccess (db : Db) (management writing : Bool) (actor : ℕ) (key : Text)
    (p : ProjectView) : Type 0 where
  pub administrator : Bool
  pub actor_is_active : IsActiveActor db actor administrator
  pub project : Project
  pub project_row : In project db.projects
  pub project_key : text_eq project.key key ≡ true
  pub takes_part : (administrator || is_some (find_membership project.id actor db.members)) ≡ true
  pub may_manage :
      management ≡ true → (administrator || is_project_admin (role_in db actor project)) ≡ true
  pub may_write :
      writing ≡ true → (administrator || is_project_writer (role_in db actor project)) ≡ true
  pub view :
      p
      ≡ build_project_view project
          (role_in db actor project)
          administrator
          (membership_favorite (find_membership project.id actor db.members))

pub is_system_administrator-Returns :
    (actor : ℕ) (db : Db)
    → Returns (λ b d. (d ≡ db) × IsActiveActor db actor b) (is_system_administrator actor db)
unfolding is_system_administrator
is_system_administrator-Returns actor db = Returns-gets _ _ _ db (
    Returns-or_raise _ _ _ _ db λ user found.
      Returns-raise_if _ _ _ _ db λ (active : not user.is_active ≡ false).
        Returns-raise_if _ _ _ _ db λ password. Returns-pure _ _ db (
          refl,
          record {
            user = user;
            found = found;
            active = not-false user.is_active active;
            password = password;
            administers = refl;
          },
        ))

to_access-some :
    (ms : List ProjectMember) (actor : ℕ) (o : Option Project) (a : ProjectAccess)
    → to_access ms actor o ≡ some a
    → (p : Project) × (o ≡ some p) × (a ≡ access_row ms actor p)
to_access-some ms actor none a h = cc
to_access-some ms actor (some p) a h = (p, refl, cc)

-- A guard that has let the call pass, `if flag and not administrator and not allowed: raise`.
passed_guard :
    (flag administrator allowed : Bool)
    → (flag && not administrator && not allowed) ≡ false
    → flag ≡ true
    → (administrator || allowed) ≡ true
passed_guard flag administrator allowed h e = ground arith

module _ {B : Type 0} (Q : B → Db → Type 0) where
  pub Returns-when :
      (b : Bool) (f : Db → Db) (k : Unit {0} → Action B) (db : Db)
      → Returns Q (k tt (f db))
      → Returns Q (k tt db)
      → Returns Q ((when b (modify f) >>= k) db)
  unfolding ◌>>=◌ when
  Returns-when true f k db h g = h
  Returns-when false f k db h g = g

-- What `require_project_member` has written: at most one audit event.
abbrev pub OnlyAudits : Db → Db → Type 0
OnlyAudits db d = (xs : List AuditLog) × (d ≡ record db { audits = xs })

module _ (management writing : Bool) (actor : ℕ) (key : Text) (db : Db) where
  access_facts :
      (administrator : Bool) (access : ProjectAccess)
      → IsActiveActor db actor administrator
      → accessible_project db key actor administrator ≡ some access
      → (management && not administrator && not (is_project_admin access.role)) ≡ false
      → (writing && not administrator && not (is_project_writer access.role)) ≡ false
      → HasAccess db management writing actor key
          (build_project_view access.project access.role administrator access.is_favorite)
  access_facts administrator access active found manages writes =
      let wanted = λ (p : Project).
        text_eq p.key key && (administrator || is_some (find_membership p.id actor db.members)) in
      let (p, is_p, e) =
        to_access-some db.members actor (find_first wanted db.projects) access found in
      let (m, q) = find_first-In wanted db.projects p is_p in
      let (same_key, part) = &&-true (text_eq p.key key) _ q in
      rw e (record {
        administrator = administrator;
        actor_is_active = active;
        project = p;
        project_row = m;
        project_key = same_key;
        takes_part = part;
        may_manage = passed_guard management administrator _ (rw e at manages);
        may_write = passed_guard writing administrator _ (rw e at writes);
        view = refl;
      })

  -- If `require_project_member` returns a view, it has written at most to the audit log, and the
  -- actor is an active user with a current password, the project has the key, the actor takes part
  -- in it or is a system administrator, has the role of an administrator or a writer if that was
  -- asked for or is a system administrator, and the view is the project's.
  pub require_project_member-Returns :
      Returns
        (λ p d. OnlyAudits db d × HasAccess db management writing actor key p)
        (require_project_member management writing actor key db)
  unfolding require_project_member
  require_project_member-Returns =
      Returns-bind _ _ _ _ db (is_system_administrator-Returns actor db)
        λ administrator d (same, active). rw same (
          Returns-gets _ _ _ db (
            Returns-or_raise _ _ _ _ db λ access found. Returns-raise_if _ _ _ _ db λ manages.
              Returns-raise_if _ _ _ _ db λ writes.
                let facts = access_facts administrator access active found manages writes in
                Returns-when _ _ _ _ db (Returns-pure _ _ _ ((_, refl), facts))
                  (Returns-pure _ _ _ ((db.audits, refl), facts))))

  -- The rule for a block that begins with the access check.
  pub Returns-access :
      {B : Type 0} (Q : B → Db → Type 0) (k : ProjectView → Action B)
      → ((p : ProjectView) (xs : List AuditLog)
          → HasAccess db management writing actor key p
          → Returns Q (k p (record db { audits = xs })))
      → Returns Q ((require_project_member management writing actor key >>= k) db)
  Returns-access Q k next =
      Returns-bind Q _ _ k db require_project_member-Returns
        λ p d ((xs, e), facts). rw e (next p xs facts)
