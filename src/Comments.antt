-- ===== src/Comments.antt =====
-- app/services/comments.py: listing, creating, updating and deleting a ticket's comments.
pub mod Rows
pub mod Rules
pub mod Keeps
pub mod Threads
pub mod Listed
pub mod Shown
use task_ticket_management_s.Prelude.{
  ℕ, ◌+◌, Bool, true, false, Option, none, some, List, [], ◌∷◌, ◌++◌, ◌&&◌, ◌||◌, not, ◌==◌,
  is_some, map, if◌then◌else◌, Text, strip,
}
use task_ticket_management_s.Document.{
  Document, document_schema_version, iter_attachment_ids, empty_body_document, document_eq,
  has_items,
}
use task_ticket_management_s.Document.Plain.{extract_body_document_text}
use task_ticket_management_s.Store.{
  Ticket, Comment, AuditAction, Db, comment_target, project_id, ticket_id, comment_id,
  parent_comment_id, before_version, after_version, comment_created, comment_updated,
  comment_deleted,
}
use task_ticket_management_s.Action.{
  Env, auth_error, Action, pure, gets, or_raise, raise_if, modify, ◌>>=◌, ◌>>◌, transaction,
  comment_not_found, parent_comment_not_found, comment_reply_depth_exceeded,
  comment_version_conflict, empty_comment, invalid_comment_attachment,
}
use task_ticket_management_s.Projects.Access.{
  ProjectView, add_audit, is_project_writer, require_project_user_access, require_project_member,
  uses_system_administrator_override,
}
use task_ticket_management_s.Mentions.{validate_mentions, synchronize_mentions, has_unavailable}
use task_ticket_management_s.Tickets.Queries.{TicketRow}
use task_ticket_management_s.Tickets.Guards.{require_active_project, get_ticket_row}
use Rows.{
  CommentRow, CommentView, active_comment_row, list_comment_rows, build_comment_view,
  build_threaded_comment_views,
}

-- app/schemas/comments.py: `CommentCreate` and `CommentUpdate`, as their validators leave them.
pub record CommentCreate : Type 0 where
  pub body_document : Document
  pub parent_comment_id : Option ℕ

pub record CommentUpdate : Type 0 where
  pub body_document : Document
  pub expected_version : ℕ

unfoldable pub can_manage_comments : ProjectView → Bool
can_manage_comments p = p.is_active && (is_project_writer p.role || p.can_manage)

abbrev pub comment_audit : AuditAction → ℕ → Comment → Option ℕ → Db → Db
comment_audit action actor c before db =
    add_audit
      (record {
        action = action;
        actor_user_id = actor;
        target = comment_target c.id;
        details =
            project_id c.project_id
            ∷ ticket_id c.ticket_id
            ∷ comment_id c.id
            ∷ parent_comment_id c.parent_comment_id
            ∷ before_version before
            ∷ after_version c.version
            ∷ [];
      })
      db

-- `_get_active_comment_row`
unfoldable pub get_active_comment_row : ℕ → ProjectView → ℕ → ℕ → Action CommentRow
get_active_comment_row actor p tid cid = do
  found ←
      gets (λ db. active_comment_row db p.id tid cid actor (uses_system_administrator_override p))
  or_raise found (auth_error comment_not_found 404)

-- `_get_reply_parent_row`, where the payload names a parent.
unfoldable pub require_reply_parent : ℕ → ProjectView → ℕ → Option ℕ → Action (Unit {0})
require_reply_parent actor p tid none = pure tt
require_reply_parent actor p tid (some parent) = do
  found ←
      gets
        (λ db. active_comment_row db p.id tid parent actor (uses_system_administrator_override p))
  row ← or_raise found (auth_error parent_comment_not_found 404)
  raise_if (is_some row.comment.parent_comment_id) (auth_error comment_reply_depth_exceeded 422)

abbrev pub require_comment_version : Comment → ℕ → Action (Unit {0})
require_comment_version c expected =
    raise_if (not (c.version == expected)) (auth_error comment_version_conflict 409)

-- Whether a document shows nothing.
unfoldable pub is_empty_body : Document → Bool
unfolding extract_body_document_text iter_attachment_ids strip
is_empty_body document =
    not (has_items (strip (extract_body_document_text document)))
    && not (has_items (iter_attachment_ids document))

-- `_validate_comment_body`; the labels of the mentions are set in place.
unfoldable pub validate_comment_body : Env → ℕ → ℕ → Document → Action Document
validate_comment_body env pid tid body = do
  document ← validate_mentions env pid body
  raise_if (is_empty_body document) (auth_error empty_comment 422)
  db ← gets (λ db. db)
  raise_if (has_unavailable db pid (some tid) (iter_attachment_ids document))
      (auth_error invalid_comment_attachment 400)
  pure document

abbrev pub depth_of : Option ℕ → ℕ
depth_of none = 0
depth_of (some _) = 1

-- `Comment(…)`, with the defaults of the columns that it does not give.
unfoldable pub new_comment : Env → ℕ → ℕ → ℕ → Option ℕ → Document → Comment
unfolding document_schema_version
new_comment env actor pid tid parent document = record {
  id = env.new_id;
  project_id = pid;
  ticket_id = tid;
  parent_comment_id = parent;
  author_id = actor;
  body_document = document;
  body_schema_version = document_schema_version document;
  version = 1;
  created_at = env.now;
  updated_at = env.now;
  deleted_at = none;
  deleted_by_id = none;
}

-- The mentions and the audit event of a comment that is there with the document `shown`.
unfoldable pub record_comment :
    Env → ℕ → AuditAction → Ticket → Comment → Document → Option ℕ → Db → Db
unfolding synchronize_mentions
record_comment env actor action ticket c shown before db =
    comment_audit action actor c before (record db {
      mentions = synchronize_mentions env.now actor ticket shown (some c.id) db.mentions;
    })

unfoldable pub create_comment_body : Env → ℕ → Text → Text → CommentCreate → Action CommentView
create_comment_body env actor project_key ticket_key payload = do
  project ← require_project_user_access actor project_key
  require_active_project project
  row ← get_ticket_row actor project ticket_key
  require_reply_parent actor project row.ticket.id payload.parent_comment_id
  document ← validate_comment_body env project.id row.ticket.id payload.body_document
  let c = new_comment env actor project.id row.ticket.id payload.parent_comment_id document
  modify (λ db. record db { comments = db.comments ++ c ∷ [] })
  modify (record_comment env actor comment_created row.ticket c document none)
  created ← get_active_comment_row actor project row.ticket.id c.id
  pure (build_comment_view (depth_of c.parent_comment_id) created)

unfoldable pub create_comment : Env → ℕ → Text → Text → CommentCreate → Action CommentView
create_comment env actor project_key ticket_key payload =
    transaction (create_comment_body env actor project_key ticket_key payload)

abbrev pub put_comment : Comment → List Comment → List Comment
put_comment c cs = map (λ d. if d.id == c.id then c else d) cs

abbrev pub set_comments : List Comment → Db → Db
set_comments cs db = record db { comments = cs }

-- The new body, and the flush: the version grows, and `onupdate` sets the time.
unfoldable pub edit_comment : ℕ → Document → Comment → Comment
unfolding document_schema_version
edit_comment now document c = record c {
  body_document = document;
  body_schema_version = document_schema_version document;
  version = c.version + 1;
  updated_at = now;
}

unfoldable pub write_comment :
    Env → ℕ → ProjectView → Ticket → Comment → Document → Action CommentRow
write_comment env actor project ticket c document = do
  let changed = edit_comment env.now document c
  modify (λ db. set_comments (put_comment changed db.comments) db)
  modify (record_comment env actor comment_updated ticket changed document (some c.version))
  get_active_comment_row actor project ticket.id c.id

-- `if comment.body_document != payload.body_document: …`
unfoldable pub unless_same : Bool → CommentRow → Action CommentRow → Action CommentRow
unless_same true row write db = pure row db
unless_same false row write db = write db

unfoldable pub update_comment_body : Env → ℕ → Text → Text → ℕ → CommentUpdate → Action CommentView
update_comment_body env actor project_key ticket_key cid payload = do
  project ← require_project_user_access actor project_key
  require_active_project project
  row ← get_ticket_row actor project ticket_key
  current ← get_active_comment_row actor project row.ticket.id cid
  require_comment_version current.comment payload.expected_version
  document ← validate_comment_body env project.id row.ticket.id payload.body_document
  updated ←
      unless_same (document_eq current.comment.body_document document) current
        (write_comment env actor project row.ticket current.comment document)
  pure (build_comment_view (depth_of current.comment.parent_comment_id) updated)

unfoldable pub update_comment : Env → ℕ → Text → Text → ℕ → CommentUpdate → Action CommentView
update_comment env actor project_key ticket_key cid payload =
    transaction (update_comment_body env actor project_key ticket_key cid payload)

-- The soft deletion and its flush.
unfoldable pub erase_comment : ℕ → ℕ → Comment → Comment
erase_comment now actor c = record c {
  deleted_at = some now;
  deleted_by_id = some actor;
  version = c.version + 1;
  updated_at = now;
}

unfoldable pub delete_comment_body : Env → ℕ → Text → Text → ℕ → ℕ → Action (Unit {0})
delete_comment_body env actor project_key ticket_key cid expected_version = do
  project ← require_project_user_access actor project_key
  require_active_project project
  row ← get_ticket_row actor project ticket_key
  current ← get_active_comment_row actor project row.ticket.id cid
  require_comment_version current.comment expected_version
  let changed = erase_comment env.now actor current.comment
  modify (λ db. set_comments (put_comment changed db.comments) db)
  modify (
      record_comment env actor comment_deleted row.ticket changed empty_body_document
        (some current.comment.version))

unfoldable pub delete_comment : Env → ℕ → Text → Text → ℕ → ℕ → Action (Unit {0})
delete_comment env actor project_key ticket_key cid expected_version =
    transaction (delete_comment_body env actor project_key ticket_key cid expected_version)

unfoldable pub list_ticket_comments : ℕ → Text → Text → Action (List CommentView)
list_ticket_comments actor project_key ticket_key = transaction do
  project ← require_project_member false false actor project_key
  row ← get_ticket_row actor project ticket_key
  rows ← gets (λ db.
      list_comment_rows db project.id row.ticket.id actor
        (uses_system_administrator_override project))
  pure (build_threaded_comment_views rows)
