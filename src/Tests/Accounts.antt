-- ===== src/Tests/Accounts.antt =====
-- The theorems on accounts at the sample database.
use task_ticket_management_s.Prelude.{
  ℕ, ◌≡◌, refl, true, false, Option, none, some, [], ◌∷◌, inl, inr, In, is_some, arith, Text,
  text_eq, strip,
}
use task_ticket_management_s.Store.{SystemRole, User, Db}
use task_ticket_management_s.Action.{ok, transaction, ◌>>=◌}
use task_ticket_management_s.Projects.Access.{when}
use task_ticket_management_s.Accounts.Passwords.{
  Secrets, Settings, Identity, is_login_id, normalized_login_id, validate_password, hash_password,
  verify_password,
}
use task_ticket_management_s.Accounts.Queries.{list_organization_rows, text_leb}
use task_ticket_management_s.Accounts.Organizations.{
  OrganizationView, OrganizationUpdate, require_administrator, walk, organization_tree,
  list_organizations, require_parent, organization_changes, write_organization,
  update_organization_body, update_organization,
}
use task_ticket_management_s.Accounts.Users.{UserUpdate, update_user}
use task_ticket_management_s.Accounts.Sessions.{
  identity_of, build_identity, get_current_identity, is_limited, login_key, authenticate_body,
  authenticate_user, logout_user,
}
use task_ticket_management_s.Accounts.Bootstrap.{
  BootstrapSettings, bootstrap_organization, create_first_user, bootstrap_admin,
  bootstrap_admin-AreValid,
}
use task_ticket_management_s.Action.{err, auth_error, invalid_credentials}
use task_ticket_management_s.Accounts.Tree.{organization_tree-total}
use task_ticket_management_s.Accounts.Refused.{IsRefused, authenticate_user-IsRefused}
use task_ticket_management_s.Accounts.Listed.{IsListed, update_organization-IsListed}
use task_ticket_management_s.Accounts.Throttle.{
  IsThrottled, begins, logs_in, window_of, Attempts-IsThrottled,
}
use task_ticket_management_s.Accounts.Tokens.{
  get_current_identity-authenticate_user, get_current_identity-logout_user,
}
use task_ticket_management_s.Accounts.Validity.{IsValidUser, AreValid}
use task_ticket_management_s.System.{Step, stays, goes_on, Reaches-AreValid}
use task_ticket_management_s.Tests.{
  key_ab, sample_env, sample_login, sample_password, sample_administrator, sample_organization,
  sample_db,
}

sample-IsValidUser : (u : User) → In u sample_db.users → IsValidUser sample_db.organizations u
sample-IsValidUser u m = elim m [
  | inl e ↦ rw e (record { deactivated_at = refl; deactivated_by = refl; organization = refl })
  | inr (inl e) ↦
      rw e (record { deactivated_at = refl; deactivated_by = refl; organization = refl })
  | inr (inr (inl e)) ↦
      rw e (record { deactivated_at = refl; deactivated_by = refl; organization = refl })
  | inr (inr (inr empty)) ↦ absurd empty
]

sample-AreValid : AreValid sample_db
sample-AreValid = record {
  unique = (refl, (refl, (refl, tt)));
  row = sample-IsValidUser;
  session = λ s m. absurd m;
  administered = omega arith;
}

abbrev sample_user_update : UserUpdate
sample_user_update = record {
  display_name = key_ab;
  email = none;
  organization_id = 1;
  system_role = SystemRole.plain_user;
  is_active = false;
}

Reaches-AreValid_example :
    AreValid (update_user sample_env 3 2 sample_user_update key_ab sample_db).1
Reaches-AreValid_example =
    Reaches-AreValid sample_db (update_user sample_env 3 2 sample_user_update key_ab sample_db).1
      (goes_on sample_db sample_db
        (update_user sample_env 3 2 sample_user_update key_ab sample_db).1 (stays sample_db)
        (Step.updates_user sample_env 3 2 sample_user_update key_ab sample_db))
      sample-AreValid

organization_tree-total_example :
    is_some (organization_tree sample_db.organizations sample_db.users) ≡ true
organization_tree-total_example = organization_tree-total sample_db.organizations sample_db.users

abbrev sample_token : Text
sample_token =
    120 ∷ 120 ∷ 120 ∷ 120 ∷ 120 ∷ 120 ∷ 120 ∷ 120 ∷ 120 ∷ 120 ∷ 120 ∷ 120 ∷ 120 ∷ 120 ∷ 120 ∷ 120
    ∷ 120 ∷ 120 ∷ 120 ∷ 120 ∷ 120 ∷ 120 ∷ 120 ∷ 120 ∷ 120 ∷ 120 ∷ 120 ∷ 120 ∷ 120 ∷ 120 ∷ 120 ∷ 120
    ∷ 120 ∷ 120 ∷ 120 ∷ 120 ∷ 120 ∷ 120 ∷ 120 ∷ 120 ∷ 120 ∷ 120 ∷ 120 ∷ []

abbrev sample_secrets : Secrets
sample_secrets = record {
  lower = λ s. s;
  hash = λ s. s;
  verify = λ stored value. text_eq stored value;
  token_digest = λ s. s;
  new_session_token = sample_token;
}

abbrev sample_settings : Settings
sample_settings = record {
  login_window_seconds = 600;
  login_max_failures = 5;
  login_max_ip_failures = 20;
  lifetime_minutes = 480;
}

Attempts-IsThrottled_example :
    IsThrottled sample_settings
      (window_of sample_settings 500)
      (authenticate_user sample_env sample_secrets sample_settings sample_login key_ab key_ab none
        sample_db).1.events
Attempts-IsThrottled_example =
    Attempts-IsThrottled sample_settings 0 sample_db 500
      (authenticate_user sample_env sample_secrets sample_settings sample_login key_ab key_ab none
        sample_db).1
      (logs_in 0 0 sample_db sample_db sample_env sample_secrets sample_login key_ab key_ab none
        (begins 0 sample_db) (omega arith))
      (record { by_identity = λ key. omega arith; by_address = λ ip. omega arith })

abbrev sample_identity : Identity
sample_identity = identity_of sample_administrator sample_organization 9

sample_login_run :
    (authenticate_user sample_env sample_secrets sample_settings sample_login sample_password key_ab
      none sample_db).0
    ≡ ok (sample_token, sample_identity)
unfolding authenticate_user authenticate_body transaction ◌>>=◌ is_limited login_key
    normalized_login_id is_login_id verify_password build_identity text_eq strip
sample_login_run = refl

get_current_identity-authenticate_user_example :
    (get_current_identity sample_secrets 600
      (some sample_token)
      (authenticate_user sample_env sample_secrets sample_settings sample_login sample_password
        key_ab none sample_db).1).0
    ≡ ok (some sample_identity)
get_current_identity-authenticate_user_example =
    get_current_identity-authenticate_user sample_env sample_secrets sample_settings sample_login
      sample_password key_ab none sample_db sample_token sample_identity 600 sample-AreValid refl
      refl sample_login_run (omega arith)

get_current_identity-logout_user_example :
    (get_current_identity sample_secrets 600
      (some sample_token)
      (logout_user sample_env sample_secrets sample_identity sample_token key_ab sample_db).1).0
    ≡ ok none
get_current_identity-logout_user_example =
    get_current_identity-logout_user sample_env sample_secrets sample_identity sample_token key_ab
      600 sample_db

abbrev sample_organization_update : OrganizationUpdate
sample_organization_update = record {
  name = sample_login;
  parent_id = none;
  description = [];
  is_active = true;
}

abbrev sample_organization_view : OrganizationView
sample_organization_view = record {
  id = 1;
  key = key_ab;
  name = sample_login;
  parent_id = none;
  description = [];
  is_active = true;
  selectable = true;
  depth = 0;
  member_count = 3;
}

sample_organization_run :
    (update_organization sample_env 3 1 sample_organization_update key_ab sample_db).0
    ≡ ok sample_organization_view
unfolding update_organization update_organization_body transaction ◌>>=◌ require_administrator
    require_parent organization_changes write_organization list_organizations list_organization_rows
    organization_tree walk when text_eq text_leb
sample_organization_run = refl

update_organization-IsListed_example :
    IsListed 3 1 sample_organization_view
      (update_organization sample_env 3 1 sample_organization_update key_ab sample_db).1
update_organization-IsListed_example =
    update_organization-IsListed sample_env 3 1 sample_organization_update key_ab sample_db
      sample_organization_view sample_organization_run

abbrev sample_bootstrap : BootstrapSettings
sample_bootstrap = record {
  organization_key = key_ab;
  organization_name = key_ab;
  new_organization_id = 7;
}

abbrev new_db : Db
new_db = record sample_db { users = []; organizations = [] }

abbrev long_password : Text
long_password = sample_token

abbrev sample_id : Option ℕ
sample_id = some 9

sample_bootstrap_run :
    (bootstrap_admin sample_env sample_secrets sample_bootstrap sample_login long_password key_ab
      new_db).0
    ≡ ok sample_id
unfolding bootstrap_admin create_first_user bootstrap_organization transaction ◌>>=◌
    normalized_login_id is_login_id hash_password validate_password text_eq strip
sample_bootstrap_run = refl

bootstrap_admin-AreValid_example :
    (sample_id ≡ some sample_env.new_id)
    × AreValid
        (bootstrap_admin sample_env sample_secrets sample_bootstrap sample_login long_password
          key_ab new_db).1
bootstrap_admin-AreValid_example =
    bootstrap_admin-AreValid sample_env sample_secrets sample_bootstrap sample_login long_password
      key_ab new_db sample_id refl refl sample_bootstrap_run

-- A login with a wrong password.
sample_refusal_run :
    (authenticate_user sample_env sample_secrets sample_settings sample_login key_ab key_ab none
      sample_db).0
    ≡ err (auth_error invalid_credentials 401)
unfolding authenticate_user authenticate_body transaction ◌>>=◌ is_limited login_key
    normalized_login_id is_login_id verify_password build_identity text_eq strip
sample_refusal_run = refl

authenticate_user-IsRefused_example :
    IsRefused sample_env sample_secrets sample_settings sample_login key_ab sample_db
      (auth_error invalid_credentials 401)
      (authenticate_user sample_env sample_secrets sample_settings sample_login key_ab key_ab none
        sample_db).1
authenticate_user-IsRefused_example =
    authenticate_user-IsRefused sample_env sample_secrets sample_settings sample_login key_ab key_ab
      none sample_db (auth_error invalid_credentials 401) sample_refusal_run
