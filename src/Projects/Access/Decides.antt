-- ===== src/Projects/Access/Decides.antt =====
-- What `require_project_member` answers to an active actor, in every case.
use task_ticket_management_s.Prelude.{
  ℕ, ◌≡◌, refl, Bool, true, false, not, ◌&&◌, Option, none, some, [], ◌∷◌, Text, if◌then◌else◌, ◌∙◌,
}
use task_ticket_management_s.Codes.{ProjectRole}
use task_ticket_management_s.Store.{Db, project_override_access, project_target, permission}
use task_ticket_management_s.Action.{
  Failure, Result, ok, err, auth_error, raise_if, modify, pure, ◌>>=◌, ◌>>◌, project_not_found,
  project_admin_required, project_write_required,
}
use task_ticket_management_s.Projects.Queries.{ProjectAccess, accessible_project}
use task_ticket_management_s.Projects.Access.{
  ProjectView, is_project_admin, is_project_writer, build_project_view, uses_override,
  is_system_administrator, require_project_member, when, add_audit, override_permission,
}
use task_ticket_management_s.Projects.Access.Rules.{IsActiveActor}

-- What an access asks for.
pub data Need : Type 0 where
  to_read to_write to_manage : Need

abbrev pub need : Bool → Bool → Need
need true writing = Need.to_manage
need false true = Need.to_write
need false false = Need.to_read

-- What the roles of a participant, or none, permit.
pub data Answer : Type 0 where
  permitted refused : Answer

abbrev pub answer : Need → Option ProjectRole → Answer
answer Need.to_read _ = permitted
answer Need.to_write (some ProjectRole.admin) = permitted
answer Need.to_write (some ProjectRole.user) = permitted
answer Need.to_write (some ProjectRole.guest) = refused
answer Need.to_write none = refused
answer Need.to_manage (some ProjectRole.admin) = permitted
answer Need.to_manage (some ProjectRole.user) = refused
answer Need.to_manage (some ProjectRole.guest) = refused
answer Need.to_manage none = refused

-- Who may manage a project: its administrators and those of the system.
abbrev pub manages : Bool → Option ProjectRole → Bool
manages true _ = true
manages false (some ProjectRole.admin) = true
manages false (some ProjectRole.user) = false
manages false (some ProjectRole.guest) = false
manages false none = false

abbrev pub shown : Bool → ProjectAccess → ProjectView
shown administrator access = record {
  id = access.project.id;
  key = access.project.key;
  name = access.project.name;
  description = access.project.description;
  is_active = access.project.is_active;
  role = access.role;
  can_manage = manages administrator access.role;
  is_favorite = access.is_favorite;
}

abbrev pub refusal : Need → Failure
refusal Need.to_read = auth_error project_not_found 404
refusal Need.to_write = auth_error project_write_required 403
refusal Need.to_manage = auth_error project_admin_required 403

abbrev pub answered : Answer → Need → ProjectView → Result ProjectView
answered permitted n view = ok view
answered refused n view = err (refusal n)

-- The answer to an actor, who is a system administrator or not, on the project that was found.
abbrev pub decision : Bool → Need → Option ProjectAccess → Result ProjectView
decision administrator n none = err (auth_error project_not_found 404)
decision true n (some access) = ok (shown true access)
decision false n (some access) = answered (answer n access.role) n (shown false access)

-- The guards of the code by the role.
by_role :
    (management writing administrator : Bool) (access : ProjectAccess)
    → (if management && not administrator && not (is_project_admin access.role)
        then err (auth_error project_admin_required 403)
        else if writing && not administrator && not (is_project_writer access.role)
        then err (auth_error project_write_required 403)
        else ok (build_project_view access.project access.role administrator access.is_favorite))
      ≡ decision administrator (need management writing) (some access)
by_role management writing administrator access = go management writing administrator access.role
  where
    go :
        (m w a : Bool) (r : Option ProjectRole)
        → (if m && not a && not (is_project_admin r)
            then err (auth_error project_admin_required 403)
            else if w && not a && not (is_project_writer r)
            then err (auth_error project_write_required 403)
            else ok (build_project_view access.project r a access.is_favorite))
          ≡ decision a (need m w) (some (record access { role = r }))
    go true true true r = refl
    go true false true r = refl
    go false true true r = refl
    go false false true r = refl
    go true true false none = refl
    go true true false (some ProjectRole.admin) = refl
    go true true false (some ProjectRole.user) = refl
    go true true false (some ProjectRole.guest) = refl
    go true false false none = refl
    go true false false (some ProjectRole.admin) = refl
    go true false false (some ProjectRole.user) = refl
    go true false false (some ProjectRole.guest) = refl
    go false true false none = refl
    go false true false (some ProjectRole.admin) = refl
    go false true false (some ProjectRole.user) = refl
    go false true false (some ProjectRole.guest) = refl
    go false false false none = refl
    go false false false (some ProjectRole.admin) = refl
    go false false false (some ProjectRole.user) = refl
    go false false false (some ProjectRole.guest) = refl

-- Two guards, a write and a value.
guarded :
    (a b c : Bool) (e f : Failure) (write : Db → Db) (v : ProjectView) (db : Db)
    → ((raise_if a e >> (raise_if b f >> (when c (modify write) >> pure v))) db).0
      ≡ (if a then err e else if b then err f else ok v)
unfolding ◌>>=◌ when
guarded true b c e f write v db = refl
guarded false true c e f write v db = refl
guarded false false true e f write v db = refl
guarded false false false e f write v db = refl

module _ (management writing : Bool) (actor : ℕ) (key : Text) (db : Db) (administrator : Bool)
    (active : IsActiveActor db actor administrator) where
  is_system_administrator-ok : is_system_administrator actor db ≡ (ok administrator, db)
  unfolding is_system_administrator ◌>>=◌
  is_system_administrator-ok =
      rw (active.found, active.active, active.password, active.administers) refl

  -- What `require_project_member` answers to an active actor with a current password, by the
  -- project that the actor is found to see: without one `project_not_found`; to a system
  -- administrator the view of the project, which tells that it may be managed; to anyone else, if
  -- management is asked for, the view just if the role in it is an administrator's, and else
  -- `project_admin_required`; if writing is asked for, the view just if the role is an
  -- administrator's or a user's, and else `project_write_required`; and else the view. Their view
  -- tells that the project may be managed just if the role is an administrator's.
  pub require_project_member-decision :
      (o : Option ProjectAccess)
      → accessible_project db key actor administrator ≡ o
      → (require_project_member management writing actor key db).0
        ≡ decision administrator (need management writing) o
  unfolding require_project_member ◌>>=◌ when
  require_project_member-decision none found = rw (is_system_administrator-ok, found) refl
  require_project_member-decision (some access) found =
      rw (is_system_administrator-ok, found)
        ((guarded (management && not administrator && not (is_project_admin access.role))
            (writing && not administrator && not (is_project_writer access.role))
            (uses_override administrator management writing access.role)
            (auth_error project_admin_required 403) (auth_error project_write_required 403)
            (add_audit (record {
              action = project_override_access;
              actor_user_id = actor;
              target = project_target access.project.id;
              details = permission (override_permission management writing) ∷ [];
            }))
            (build_project_view access.project access.role administrator access.is_favorite) db)
          ∙ by_role management writing administrator access)
