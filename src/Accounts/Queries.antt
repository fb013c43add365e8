-- ===== src/Accounts/Queries.antt =====
-- app/repositories/administration.py and app/repositories/auth.py: the queries over organizations,
-- users, sessions and security events.
use task_ticket_management_s.Prelude.{
  ℕ, Bool, true, false, Option, none, some, List, [], ◌∷◌, ◌++◌, map, ◌&&◌, ◌||◌, not, ◌==◌, leb,
  ltb, is_none, select, find_first, count_where, any, order_by, option_eq, if◌then◌else◌, Text,
  text_eq,
}
use task_ticket_management_s.Store.{
  User, Organization, UserSession, SecurityAction, SecurityTarget, SecurityEvent, Db,
  login_identity, login_failed,
}
use task_ticket_management_s.Projects.Access.{is_system_admin_role}
use task_ticket_management_s.Projects.Queries.{find_user}
use task_ticket_management_s.Projects.Members.{user_is_active}
use task_ticket_management_s.Tickets.Snapshots.{option_text_eq}

abbrev pub find_organization : ℕ → List Organization → Option Organization
find_organization i os = find_first (λ o. o.id == i) os

-- `organization_by_id.get(…)`
abbrev pub organization_at : Option ℕ → List Organization → Option Organization
organization_at none os = none
organization_at (some i) os = find_organization i os

-- The order of texts by code points.
unfoldable pub text_leb : Text → Text → Bool
text_leb [] t = true
text_leb (_ ∷ _) [] = false
text_leb (a ∷ s) (b ∷ t) = ltb a b || ((a == b) && text_leb s t)

-- ORDER BY Organization.name, Organization.id
abbrev pub by_name : Organization → Organization → Bool
by_name o p =
    (text_leb o.name p.name && not (text_eq o.name p.name))
    || (text_eq o.name p.name && leb o.id p.id)

unfoldable pub list_organization_rows : Db → List Organization
unfolding text_leb text_eq
list_organization_rows db = order_by by_name db.organizations

-- `member_counts(session).get(organization_id, 0)`
abbrev pub member_count : List User → ℕ → ℕ
member_count us i = count_where (λ u. u.organization_id == i) us

-- The row of `get_user_with_organization`: an inner join.
pub record ManagedUser : Type 0 where
  pub user : User
  pub organization_name : Text

abbrev pub with_organization : User → Option Organization → Option ManagedUser
with_organization u none = none
with_organization u (some o) = some (record { user = u; organization_name = o.name })

abbrev pub to_managed_user : List Organization → Option User → Option ManagedUser
to_managed_user os none = none
to_managed_user os (some u) = with_organization u (find_organization u.organization_id os)

abbrev pub get_user_with_organization : Db → ℕ → Option ManagedUser
get_user_with_organization db i = to_managed_user db.organizations (find_user i db.users)

abbrev pub is_active_administrator : User → Bool
is_active_administrator u = is_system_admin_role u.system_role && u.is_active

abbrev pub active_system_administrator_count : List User → ℕ
active_system_administrator_count us = count_where is_active_administrator us

-- `User.email == email`, which no row without an address satisfies, where one is asked for.
abbrev pub has_email : Option Text → User → Bool
has_email none u = false
has_email (some e) u = option_text_eq u.email (some e)

-- The row may be the excluded one.
abbrev pub is_excluded : Option ℕ → ℕ → Bool
is_excluded none i = false
is_excluded (some j) i = i == j

abbrev pub duplicate_user : Db → Text → Option Text → Option ℕ → Bool
duplicate_user db login email exclude =
    any (λ u. (text_eq u.login_id login || has_email email u) && not (is_excluded exclude u.id))
      db.users

abbrev pub duplicate_organization : Db → Option ℕ → Text → Option ℕ → Bool
duplicate_organization db parent name exclude =
    any (λ o. option_eq o.parent_id parent && text_eq o.name name && not (is_excluded exclude o.id))
      db.organizations

-- `find_user` of app/repositories/auth.py
abbrev pub find_login : Text → List User → Option User
find_login login us = find_first (λ u. text_eq u.login_id login) us

abbrev pub find_active_session : Db → Text → ℕ → Option UserSession
find_active_session db token_hash now =
    find_first
      (λ s.
        text_eq s.token_hash token_hash
        && ltb now s.expires_at
        && is_none s.revoked_at
        && user_is_active (find_user s.user_id db.users))
      db.sessions

-- The WHERE of `lock_verified_user` and `replace_password`.
abbrev pub is_verified : ℕ → Text → User → Bool
is_verified uid verified_hash u =
    (u.id == uid) && text_eq u.password_hash verified_hash && u.is_active

-- It locks the rows that fit and writes nothing: `rowcount == 1`.
abbrev pub lock_verified_user : Db → ℕ → Text → Bool
lock_verified_user db uid verified_hash = count_where (is_verified uid verified_hash) db.users == 1

abbrev pub set_users : List User → Db → Db
set_users us db = record db { users = us }

abbrev pub set_sessions : List UserSession → Db → Db
set_sessions ss db = record db { sessions = ss }

abbrev pub set_organizations : List Organization → Db → Db
set_organizations os db = record db { organizations = os }

-- The UPDATE of `replace_password`.
abbrev pub replace_password : ℕ → Text → Text → List User → List User
replace_password uid verified_hash new_hash us =
    map
      (λ u.
        if is_verified uid verified_hash u
        then record u { password_hash = new_hash; must_change_password = false }
        else u)
      us

abbrev pub revoke_token : Text → List UserSession → List UserSession
revoke_token token_hash ss = select (λ s. not (text_eq s.token_hash token_hash)) ss

abbrev pub revoke_user_sessions : ℕ → List UserSession → List UserSession
revoke_user_sessions uid ss = select (λ s. not (s.user_id == uid)) ss

abbrev pub is_login_failed : SecurityAction → Bool
is_login_failed login_failed = true
is_login_failed _ = false

abbrev pub is_login_identity : Text → Option SecurityTarget → Bool
is_login_identity key (some (login_identity k)) = text_eq k key
is_login_identity key _ = false

-- The WHERE of `count_authentication_failures`, with `identity_key` and with `ip_address`.
abbrev pub is_failure_of : ℕ → Text → SecurityEvent → Bool
is_failure_of since key e =
    is_login_failed e.action && leb since e.occurred_at && is_login_identity key e.target

abbrev pub is_failure_from : ℕ → Text → SecurityEvent → Bool
is_failure_from since ip e =
    is_login_failed e.action && leb since e.occurred_at && option_text_eq e.ip_address (some ip)

abbrev pub count_identity_failures : ℕ → Text → List SecurityEvent → ℕ
count_identity_failures since key es = count_where (is_failure_of since key) es

abbrev pub count_address_failures : ℕ → Text → List SecurityEvent → ℕ
count_address_failures since ip es = count_where (is_failure_from since ip) es

-- `record_audit_event` of app/services/auth.py
abbrev pub record_audit_event : SecurityEvent → Db → Db
record_audit_event e db = record db { events = db.events ++ e ∷ [] }
