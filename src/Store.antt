-- ===== src/Store.antt =====
-- app/models: the rows of the tables that the services read and write, and the database as a
-- record of tables. Columns that no service writes and no modelled query reads are left out.
use task_ticket_management_s.Prelude.{ℕ, Bool, Option, List, Text}
use task_ticket_management_s.Codes.{
  ProjectRole, TicketType, TicketStatus, Priority, RelationType, HistoryEventType,
}
use task_ticket_management_s.Document.{Document}

-- app/models/identity.py: `SystemRole` and `User`.
pub data SystemRole : Type 0 where
  plain_user system_admin : SystemRole

pub record User : Type 0 where
  pub id : ℕ
  pub login_id : Text
  pub display_name : Text
  pub system_role : SystemRole
  pub is_active : Bool
  pub must_change_password : Bool
  pub email : Option Text
  pub password_hash : Text
  pub organization_id : ℕ
  pub deactivated_at : Option ℕ
  pub deactivated_by_id : Option ℕ

pub record Organization : Type 0 where
  pub id : ℕ
  pub key : Text
  pub name : Text
  pub parent_id : Option ℕ
  pub description : Text
  pub is_active : Bool

pub record UserSession : Type 0 where
  pub id : ℕ
  pub user_id : ℕ
  pub token_hash : Text
  pub created_at : ℕ
  pub expires_at : ℕ
  pub revoked_at : Option ℕ

-- app/models/work.py
pub record Project : Type 0 where
  pub id : ℕ
  pub key : Text
  pub name : Text
  pub description : Text
  pub is_active : Bool
  pub created_by_id : ℕ
  pub next_ticket_number : ℕ

pub record ProjectMember : Type 0 where
  pub id : ℕ
  pub project_id : ℕ
  pub user_id : ℕ
  pub role : ProjectRole
  pub is_favorite : Bool

pub record TicketDeletionBatch : Type 0 where
  pub id : ℕ
  pub project_id : ℕ
  pub root_ticket_key : Text
  pub deleted_by_id : ℕ
  pub deleted_at : ℕ
  pub purge_after : ℕ
  pub restored_at : Option ℕ
  pub purged_at : Option ℕ
  pub restored_by_id : Option ℕ

pub record CustomField : Type 0 where
  pub field_id : Text
  pub name : Text
  pub field_type : Text
  pub value : Text

pub record Ticket : Type 0 where
  pub id : ℕ
  pub project_id : ℕ
  pub number : ℕ
  pub key : Text
  pub type : TicketType
  pub title : Text
  pub labels : List Text
  pub custom_fields : List CustomField
  pub description_document : Document
  pub body_schema_version : ℕ
  pub status : TicketStatus
  pub priority : Priority
  pub parent_id : Option ℕ
  pub creator_id : ℕ
  pub assignee_id : Option ℕ
  pub due_date : Option ℕ
  pub actual_started_at : Option ℕ
  pub completed_at : Option ℕ
  pub cancelled_at : Option ℕ
  pub version : ℕ
  pub created_at : ℕ
  pub updated_at : ℕ
  pub deleted_at : Option ℕ
  pub deletion_batch_id : Option ℕ

-- The `dependency_kind` codes.
pub data DependencyKind : Type 0 where
  fs ss ff sf : DependencyKind

pub record TicketRelation : Type 0 where
  pub id : ℕ
  pub project_id : ℕ
  pub source_ticket_id : ℕ
  pub target_ticket_id : ℕ
  pub relation_type : RelationType
  pub dependency_kind : Option DependencyKind
  pub lag_days : ℕ
  pub created_by_id : ℕ
  pub created_at : ℕ

-- app/schemas/contracts.py: `RelationSnapshot` and `TicketState`. The state carries the ticket's
-- row whole.
pub record RelationSnapshot : Type 0 where
  pub source_ticket_key : Text
  pub target_ticket_key : Text
  pub relation_type : RelationType
  pub dependency_kind : Option DependencyKind
  pub lag_days : ℕ

pub record TicketState : Type 0 where
  pub ticket : Ticket
  pub parent_key : Option Text
  pub relations : List RelationSnapshot

-- The names of the fields that a history event or an audit event lists as changed.
pub data Field : Type 0 where
  whole_ticket title labels custom_fields description_document priority parent_key : Field
  assignee_id due_date status actual_started_at completed_at cancelled_at : Field
  deleted_at relations : Field

pub record TicketHistory : Type 0 where
  pub project_id : ℕ
  pub ticket_id : ℕ
  pub operation_id : ℕ
  pub ticket_version : ℕ
  pub event_type : HistoryEventType
  pub actor_id : ℕ
  pub occurred_at : ℕ
  pub before_state : Option TicketState
  pub after_state : TicketState
  pub changes : List Field

-- app/models/content.py
pub record Comment : Type 0 where
  pub id : ℕ
  pub project_id : ℕ
  pub ticket_id : ℕ
  pub parent_comment_id : Option ℕ
  pub author_id : ℕ
  pub body_document : Document
  pub body_schema_version : ℕ
  pub version : ℕ
  pub created_at : ℕ
  pub updated_at : ℕ
  pub deleted_at : Option ℕ
  pub deleted_by_id : Option ℕ

pub record Mention : Type 0 where
  pub project_id : ℕ
  pub ticket_id : ℕ
  pub comment_id : Option ℕ
  pub target_user_id : ℕ
  pub mentioned_by_id : ℕ
  pub created_at : ℕ
  pub read_at : Option ℕ
  pub removed_at : Option ℕ

pub record Attachment : Type 0 where
  pub id : ℕ
  pub project_id : ℕ
  pub ticket_id : ℕ
  pub deleted_at : Option ℕ

-- The audit log: the action codes, the targets, and the keys of `details` with their values.
pub data AuditAction : Type 0 where
  project_override_access project_created project_updated project_reactivated : AuditAction
  project_deactivated project_member_added project_member_role_changed : AuditAction
  project_member_removed ticket_created ticket_updated ticket_status_changed : AuditAction
  ticket_moved_to_trash ticket_restored ticket_relation_created : AuditAction
  ticket_relation_deleted comment_created comment_updated comment_deleted : AuditAction

pub data AuditTarget : Type 0 where
  project_target : ℕ → AuditTarget
  ticket_target : Text → AuditTarget
  comment_target : ℕ → AuditTarget

pub data Permission : Type 0 where
  read write manage : Permission

pub data ProjectField : Type 0 where
  name_field description_field is_active_field : ProjectField

pub data Detail : Type 0 where
  permission : Permission → Detail
  project_key : Text → Detail
  user_id project_id ticket_id deletion_batch_id operation_id relation_id comment_id : ℕ → Detail
  from_version to_version after_version : ℕ → Detail
  before_version parent_comment_id : Option ℕ → Detail
  role before_role after_role : ProjectRole → Detail
  changed_project_fields : List ProjectField → Detail
  changed_fields : List Field → Detail
  before_is_active after_is_active : Bool → Detail
  ticket_type : TicketType → Detail
  root_ticket_key counterpart_ticket_key : Text → Detail
  from_status to_status : TicketStatus → Detail
  relation_type : RelationType → Detail

pub record AuditLog : Type 0 where
  pub action : AuditAction
  pub actor_user_id : ℕ
  pub target : AuditTarget
  pub details : List Detail

-- The rows of the audit log that app/services/auth.py, app/services/administration.py and
-- app/services/bootstrap.py add, which have an address and a time.
pub data SecurityAction : Type 0 where
  organization_created organization_updated organization_deactivated : SecurityAction
  organization_reactivated user_created user_updated user_deactivated : SecurityAction
  user_reactivated user_password_reset login_failed login_succeeded logged_out : SecurityAction
  password_changed bootstrap_admin_created : SecurityAction

pub data SecurityTarget : Type 0 where
  organization_row user_row : ℕ → SecurityTarget
  login_identity : Text → SecurityTarget

pub data AccountField : Type 0 where
  name_changed parent_changed description_changed activity_changed : AccountField
  display_name_changed email_changed organization_changed system_role_changed : AccountField

pub record SecurityEvent : Type 0 where
  pub action : SecurityAction
  pub actor_user_id : Option ℕ
  pub target : Option SecurityTarget
  pub ip_address : Option Text
  pub occurred_at : ℕ
  pub changed_fields : List AccountField

pub record Db : Type 0 where
  pub users : List User
  pub projects : List Project
  pub members : List ProjectMember
  pub tickets : List Ticket
  pub relations : List TicketRelation
  pub batches : List TicketDeletionBatch
  pub histories : List TicketHistory
  pub comments : List Comment
  pub mentions : List Mention
  pub attachments : List Attachment
  pub audits : List AuditLog
  pub organizations : List Organization
  pub sessions : List UserSession
  pub events : List SecurityEvent
