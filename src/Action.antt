-- ===== src/Action.antt =====
-- A service call: it reads and writes the session's database and may raise. `app/db/transaction.py`
-- and `project_operation_context` of app/services/projects.py commit it or roll it back.
pub mod Triple
pub mod Frame
use task_ticket_management_s.Prelude.{ℕ, Bool, true, false, Option, none, some, if◌then◌else◌}
use task_ticket_management_s.Document.{Document}
use task_ticket_management_s.Store.{Db, AuditLog}

-- The codes of `AuthError`.
pub data Code : Type 0 where
  authentication_required password_change_required admin_required project_not_found : Code
  project_admin_required project_write_required project_inactive project_conflict : Code
  invalid_user member_conflict member_not_found project_inactive_role_expansion : Code
  inactive_member_role_expansion last_project_administrator : Code
  member_has_active_assignments ticket_not_found ticket_version_conflict : Code
  terminal_ticket_relation_locked terminal_ticket_locked invalid_parent invalid_assignee : Code
  invalid_mention_target invalid_mention_document invalid_description_attachment : Code
  invalid_status_transition incomplete_dependency incomplete_child_confirmation_required : Code
  active_dependency_blocks_trash ticket_trash_batch_not_found : Code
  ticket_trash_retention_expired deleted_parent_blocks_restore : Code
  ticket_relation_not_found invalid_relation_target self_ticket_relation : Code
  ticket_relation_conflict comment_not_found parent_comment_not_found : Code
  comment_reply_depth_exceeded comment_version_conflict empty_comment : Code
  invalid_comment_attachment organization_conflict invalid_organization_tree : Code
  invalid_organization organization_not_found organization_cycle user_conflict : Code
  user_not_found last_active_administrator login_rate_limited invalid_credentials : Code
  password_confirmation_mismatch password_unchanged invalid_password invalid_login_id : Code
  invalid_current_password credentials_changed invalid_filter : Code

-- What a call may raise: `AuthError(code, …, status_code)`, or another exception.
pub data Failure : Type 0 where
  auth_error : Code → ℕ → Failure
  runtime_error : Failure

pub data Result (A : Type 0) : Type 0 where
  ok : A → Result A
  err : Failure → Result A

-- What a call takes from outside: `utc_now()`, the retention in days of the settings, the ids that
-- the database and `uuid4` give to a new row, a new membership and the operation, and the part of
-- `validate_body_document` that limits the size of a document.
pub record Env : Type 0 where
  pub now : ℕ
  pub retention_days : ℕ
  pub new_id : ℕ
  pub new_member_id : ℕ
  pub operation_id : ℕ
  pub fits : Document → Bool

abbrev pub Action : Type 0 → Type 0
Action A = Db → Result A × Db

module _ {A : Type 0} where
  unfoldable pub pure : A → Action A
  pure a db = (ok a, db)

  unfoldable pub raise : Failure → Action A
  raise e db = (err e, db)

  unfoldable pub gets : (Db → A) → Action A
  gets f db = (ok (f db), db)

  -- `if x is None: raise …`
  unfoldable pub or_raise : Option A → Failure → Action A
  or_raise none e db = (err e, db)
  or_raise (some a) e db = (ok a, db)

unfoldable pub raise_if : Bool → Failure → Action (Unit {0})
raise_if true e db = (err e, db)
raise_if false e db = (ok tt, db)

unfoldable pub modify : (Db → Db) → Action (Unit {0})
modify f db = (ok tt, f db)

abbrev pub continue : {A B : Type 0} → Result A → (A → Action B) → Action B
continue (ok a) f db = f a db
continue (err e) f db = (err e, db)

infixl 5 ◌>>=◌ ◌>>◌
unfoldable pub ◌>>=◌ : {A B : Type 0} → Action A → (A → Action B) → Action B
unfolding pure raise gets or_raise raise_if modify
◌>>=◌ m f db = let (r, db') = m db in continue r f db'

abbrev pub ◌>>◌ : {A B : Type 0} → Action A → Action B → Action B
m >> k = m >>= λ _. k

-- `request_transaction`: commit what a call that returns has written, roll back one that raises.
abbrev pub settle : {A : Type 0} → Db → Result A × Db → Result A × Db
settle db (ok a, db') = (ok a, db')
settle db (err e, _) = (err e, db)

unfoldable pub transaction : {A : Type 0} → Action A → Action A
transaction m db = settle db (m db)
