-- ===== src/Accounts/Organizations.antt =====
-- app/services/administration.py: the organizations, their tree as a list, and its changes. The
-- unique indexes of the tables are met beforehand by the checks for duplicates, in the same
-- transaction, so the flush raises nothing.
use task_ticket_management_s.Prelude.{
  ℕ, zero, suc, ◌+◌, Bool, true, false, Option, none, some, List, [], ◌∷◌, ◌++◌, map, ◌&&◌, ◌||◌,
  not, ◌==◌, select, find_first, length, list_if, member, option_eq, if◌then◌else◌, Text, text_eq,
}
use task_ticket_management_s.Document.{has_items}
use task_ticket_management_s.Store.{
  User, Organization, SecurityAction, AccountField, Db, organization_row, organization_created,
  organization_updated, organization_deactivated, organization_reactivated, name_changed,
  parent_changed, description_changed, activity_changed,
}
use task_ticket_management_s.Action.{
  Env, Code, auth_error, runtime_error, Action, pure, raise, gets, or_raise, raise_if, modify,
  ◌>>=◌, ◌>>◌, transaction, admin_required, organization_conflict, invalid_organization_tree,
  invalid_organization, organization_not_found, organization_cycle,
}
use task_ticket_management_s.Projects.Access.{is_system_admin_role, when}
use task_ticket_management_s.Projects.Queries.{find_user}
use task_ticket_management_s.Projects.Settings.{bool_eq}
use task_ticket_management_s.Accounts.Queries.{
  find_organization, organization_at, list_organization_rows, member_count, duplicate_organization,
  set_organizations, record_audit_event,
}

-- `require_administrator`
abbrev pub may_administer : Option User → Bool
may_administer none = false
may_administer (some u) =
    u.is_active && not u.must_change_password && is_system_admin_role u.system_role

unfoldable pub require_administrator : ℕ → Action (Unit {0})
require_administrator actor = do
  status ← gets (λ db. find_user actor db.users)
  raise_if (not (may_administer status)) (auth_error admin_required 403)

pub record OrganizationView : Type 0 where
  pub id : ℕ
  pub key : Text
  pub name : Text
  pub parent_id : Option ℕ
  pub description : Text
  pub is_active : Bool
  pub selectable : Bool
  pub depth : ℕ
  pub member_count : ℕ

-- An item of `stack`: the row, its depth, and whether all rows above it are active.
pub record Pending : Type 0 where
  pub row : Organization
  pub depth : ℕ
  pub parent_active : Bool

-- `children[parent]`, which the loop pushes in reverse so that its first row is popped first.
abbrev pub pending_children : List Organization → Option ℕ → ℕ → Bool → List Pending
pending_children rows parent depth active =
    map (λ o. record { row = o; depth = depth; parent_active = active })
      (select (λ o. option_eq o.parent_id parent) rows)

abbrev pub organization_view : List User → Pending → OrganizationView
organization_view us p = record {
  id = p.row.id;
  key = p.row.key;
  name = p.row.name;
  parent_id = p.row.parent_id;
  description = p.row.description;
  is_active = p.row.is_active;
  selectable = p.parent_active && p.row.is_active;
  depth = p.depth;
  member_count = member_count us p.row.id;
}

-- Where the loop of `list_organizations` ends: with what it has seen and its result, or with the
-- exception of a row that it meets again. Without fuel it has no outcome.
pub data Walk : Type 0 where
  finished : List ℕ → List OrganizationView → Walk
  met_again : Walk

unfoldable pub walk :
    ℕ → List Organization → List User → List Pending → List ℕ → List OrganizationView → Option Walk
walk zero rows us stack seen result = none
walk (suc fuel) rows us [] seen result = some (finished seen result)
walk (suc fuel) rows us (p ∷ stack) seen result =
    let rest =
      walk fuel rows us
        (pending_children rows (some p.row.id) (p.depth + 1) (p.parent_active && p.row.is_active)
          ++ stack)
        (p.row.id ∷ seen) (result ++ organization_view us p ∷ []) in
    if member p.row.id seen then some met_again else rest

-- `if len(seen) != len(organization_rows): …`
abbrev pub check_walk : ℕ → Walk → Action (List OrganizationView)
check_walk n met_again = raise (auth_error invalid_organization_tree 409)
check_walk n (finished seen result) = do
  raise_if (not (length seen == n)) (auth_error invalid_organization_tree 409)
  pure result

unfoldable pub organization_tree : List Organization → List User → Option Walk
unfolding walk
organization_tree rows us = walk (length rows + 2) rows us (pending_children rows none 0 true) [] []

unfoldable pub list_organizations : ℕ → Action (List OrganizationView)
unfolding list_organization_rows organization_tree
list_organizations actor = do
  require_administrator actor
  rows ← gets list_organization_rows
  us ← gets (λ db. db.users)
  walked ← or_raise (organization_tree rows us) runtime_error
  check_walk (length rows) walked

unfoldable pub get_active_organization : ℕ → ℕ → Action OrganizationView
get_active_organization actor oid = do
  views ← list_organizations actor
  view ← or_raise (find_first (λ v. v.id == oid) views) (auth_error invalid_organization 400)
  raise_if (not view.selectable) (auth_error invalid_organization 400)
  pure view

abbrev pub require_active_parent : ℕ → Option ℕ → Action (Unit {0})
require_active_parent actor none = pure tt
require_active_parent actor (some parent) = do get_active_organization actor parent; pure tt

-- app/schemas/administration.py: `OrganizationCreate` and `OrganizationUpdate`.
pub record OrganizationCreate : Type 0 where
  pub name : Text
  pub parent_id : Option ℕ
  pub description : Text

pub record OrganizationUpdate : Type 0 where
  pub name : Text
  pub parent_id : Option ℕ
  pub description : Text
  pub is_active : Bool

-- `record_audit_event` of an organization.
abbrev pub organization_event : Env → ℕ → Text → SecurityAction → ℕ → List AccountField → Db → Db
organization_event env actor ip action oid fields = record_audit_event (record {
  action = action;
  actor_user_id = some actor;
  target = some (organization_row oid);
  ip_address = some ip;
  occurred_at = env.now;
  changed_fields = fields;
})

-- `Organization(…)`, with the default of `is_active`; `uuid4` is a parameter.
abbrev pub new_organization : Env → Text → OrganizationCreate → Organization
new_organization env key payload = record {
  id = env.new_id;
  key = key;
  name = payload.name;
  parent_id = payload.parent_id;
  description = payload.description;
  is_active = true;
}

unfoldable pub create_organization_body : Env → Text → ℕ → OrganizationCreate → Text → Action ℕ
create_organization_body env key actor payload ip = do
  require_administrator actor
  require_active_parent actor payload.parent_id
  before ← gets (λ db. db)
  raise_if (duplicate_organization before payload.parent_id payload.name none)
      (auth_error organization_conflict 409)
  modify (λ db. set_organizations (db.organizations ++ new_organization env key payload ∷ []) db)
  modify (organization_event env actor ip organization_created env.new_id [])
  pure env.new_id

unfoldable pub create_organization : Env → Text → ℕ → OrganizationCreate → Text → Action ℕ
create_organization env key actor payload ip =
    transaction (create_organization_body env key actor payload ip)

-- The loop over the ancestors: the code of the exception that it raises, if it raises one, and no
-- outcome without fuel.
unfoldable pub ancestor_loop :
    ℕ → List Organization → ℕ → List ℕ → Option Organization → Option (Option Code)
ancestor_loop zero os oid visited ancestor = none
ancestor_loop (suc fuel) os oid visited none = some none
ancestor_loop (suc fuel) os oid visited (some a) =
    let rest = ancestor_loop fuel os oid (a.id ∷ visited) (organization_at a.parent_id os) in
    if a.id == oid
    then some (some organization_cycle)
    else if member a.id visited
    then some (some invalid_organization_tree)
    else rest

abbrev pub raise_code : Option Code → Action (Unit {0})
raise_code none = pure tt
raise_code (some c) = raise (auth_error c 409)

-- The checks of a new parent.
unfoldable pub require_parent :
    ℕ → ℕ → Organization → OrganizationUpdate → Option ℕ → Action (Unit {0})
unfolding ancestor_loop
require_parent actor oid current payload none = pure tt
require_parent actor oid current payload (some pid) = do
  os ← gets list_organization_rows
  parent ← or_raise (find_organization pid os) (auth_error invalid_organization 422)
  looped ← or_raise (ancestor_loop (length os + 2) os oid [] (some parent)) runtime_error
  raise_code looped
  when
      (not (option_eq (some pid) current.parent_id) || (not current.is_active && payload.is_active))
      (require_active_parent actor (some pid))

-- `[field_name for … if current_value != requested_value]`
unfoldable pub organization_changes : Organization → OrganizationUpdate → List AccountField
organization_changes o payload =
    list_if (not (text_eq o.name payload.name)) name_changed
    ++ (list_if (not (option_eq o.parent_id payload.parent_id)) parent_changed
        ++ (list_if (not (text_eq o.description payload.description)) description_changed
            ++ list_if (not (bool_eq o.is_active payload.is_active)) activity_changed))

abbrev pub update_action : Bool → Bool → SecurityAction
update_action previously_active is_active =
    if previously_active && not is_active
    then organization_deactivated
    else if not previously_active && is_active
    then organization_reactivated
    else organization_updated

abbrev pub apply_organization_update : OrganizationUpdate → Organization → Organization
apply_organization_update payload o = record o {
  name = payload.name;
  parent_id = payload.parent_id;
  description = payload.description;
  is_active = payload.is_active;
}

abbrev pub put_organization : Organization → List Organization → List Organization
put_organization c os = map (λ o. if o.id == c.id then c else o) os

unfoldable pub write_organization :
    Env → ℕ → Text → Organization → OrganizationUpdate → Action (Unit {0})
write_organization env actor ip o payload = do
  modify (λ db.
      set_organizations (put_organization (apply_organization_update payload o) db.organizations)
        db)
  modify (
      organization_event env actor ip (update_action o.is_active payload.is_active) o.id
        (organization_changes o payload))

unfoldable pub update_organization_body :
    Env → ℕ → ℕ → OrganizationUpdate → Text → Action OrganizationView
update_organization_body env actor oid payload ip = do
  require_administrator actor
  os ← gets list_organization_rows
  current ← or_raise (find_organization oid os) (auth_error organization_not_found 404)
  require_parent actor oid current payload payload.parent_id
  before ← gets (λ db. db)
  raise_if (duplicate_organization before payload.parent_id payload.name (some oid))
      (auth_error organization_conflict 409)
  when (has_items (organization_changes current payload))
      (write_organization env actor ip current payload)
  views ← list_organizations actor
  or_raise (find_first (λ v. v.id == oid) views) runtime_error

unfoldable pub update_organization :
    Env → ℕ → ℕ → OrganizationUpdate → Text → Action OrganizationView
update_organization env actor oid payload ip =
    transaction (update_organization_body env actor oid payload ip)
