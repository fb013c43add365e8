-- ===== src/Comments/Rows.antt =====
-- app/repositories/comments.py, with the views of app/services/comments.py: the rows of comments with
-- their authors, and the thread in which a ticket's comments are shown.
use task_ticket_management_s.Prelude.{
  ℕ, Bool, Option, none, some, List, [], ◌∷◌, ◌++◌, ◌&&◌, ◌||◌, ◌==◌, ltb, leb, is_some, is_none,
  select, find_first, order_by, if◌then◌else◌, Text,
}
use task_ticket_management_s.Document.{Document, empty_body_document}
use task_ticket_management_s.Document.Plain.{extract_body_document_text}
use task_ticket_management_s.Store.{User, Comment, Db}
use task_ticket_management_s.Projects.Queries.{find_user}
use task_ticket_management_s.Tickets.Queries.{project_scope}

-- A row of `_comment_select`: the comment and the columns of its author.
pub record CommentRow : Type 0 where
  pub comment : Comment
  pub author : User

abbrev pub with_author : Db → Comment → Option User → Option CommentRow
with_author db c none = none
with_author db c (some u) = some (record { comment = c; author = u })

abbrev pub to_comment_row : Db → Option Comment → Option CommentRow
to_comment_row db none = none
to_comment_row db (some c) = with_author db c (find_user c.author_id db.users)

-- The WHERE and the inner join of `_comment_select`, within a ticket.
abbrev pub comment_query : Db → ℕ → ℕ → ℕ → Bool → Comment → Bool
comment_query db pid tid actor override c =
    is_some (find_user c.author_id db.users)
    && project_scope db c.project_id actor override
    && (c.project_id == pid)
    && (c.ticket_id == tid)

abbrev pub active_comment_row : Db → ℕ → ℕ → ℕ → ℕ → Bool → Option CommentRow
active_comment_row db pid tid cid actor override = to_comment_row db (
    find_first
      (λ c. comment_query db pid tid actor override c && (c.id == cid) && is_none c.deleted_at)
      db.comments)

-- ORDER BY Comment.created_at, Comment.id
abbrev pub by_created : Comment → Comment → Bool
by_created c d = ltb c.created_at d.created_at || ((c.created_at == d.created_at) && leb c.id d.id)

abbrev pub comment_rows : Db → List Comment → List CommentRow
comment_rows db [] = []
comment_rows db (c ∷ cs) = elim (to_comment_row db (some c)) [
  | none ↦ comment_rows db cs
  | some r ↦ r ∷ comment_rows db cs
]

abbrev pub list_comment_rows : Db → ℕ → ℕ → ℕ → Bool → List CommentRow
list_comment_rows db pid tid actor override =
    comment_rows db
      (order_by by_created (select (comment_query db pid tid actor override) db.comments))

-- app/schemas/comments.py: `CommentView`, without the rendered HTML, and `CommentAuthorView`.
pub record CommentAuthorView : Type 0 where
  pub id : ℕ
  pub login_id : Text
  pub display_name : Text

pub record CommentView : Type 0 where
  pub id : ℕ
  pub project_id : ℕ
  pub ticket_id : ℕ
  pub parent_comment_id : Option ℕ
  pub depth : ℕ
  pub author : CommentAuthorView
  pub body_document : Document
  pub body_plain_text : Text
  pub body_schema_version : ℕ
  pub version : ℕ
  pub is_deleted : Bool
  pub deleted_at : Option ℕ
  pub created_at : ℕ
  pub updated_at : ℕ

unfoldable pub build_comment_view : ℕ → CommentRow → CommentView
unfolding extract_body_document_text
build_comment_view depth row = record {
  id = row.comment.id;
  project_id = row.comment.project_id;
  ticket_id = row.comment.ticket_id;
  parent_comment_id = row.comment.parent_comment_id;
  depth = depth;
  author = record {
    id = row.author.id;
    login_id = row.author.login_id;
    display_name = row.author.display_name;
  };
  body_document =
      if is_some row.comment.deleted_at then empty_body_document else row.comment.body_document;
  body_plain_text =
      if is_some row.comment.deleted_at
      then []
      else extract_body_document_text row.comment.body_document;
  body_schema_version = row.comment.body_schema_version;
  version = row.comment.version;
  is_deleted = is_some row.comment.deleted_at;
  deleted_at = row.comment.deleted_at;
  created_at = row.comment.created_at;
  updated_at = row.comment.updated_at;
}

-- `reply_rows_by_parent_id`, a dict in the order of its keys' insertion.
abbrev pub Replies : Type 0
Replies = List (ℕ × List CommentRow)

-- `reply_rows_by_parent_id.setdefault(parent, []).append(row)`
unfoldable pub append_reply : ℕ → CommentRow → Replies → Replies
append_reply parent row [] = (parent, row ∷ []) ∷ []
append_reply parent row ((k, rows) ∷ rest) =
    let appended = append_reply parent row rest in
    if k == parent then (k, rows ++ row ∷ []) ∷ rest else (k, rows) ∷ appended

-- `reply_rows_by_parent_id.get(parent, [])`
unfoldable pub replies_to : ℕ → Replies → List CommentRow
replies_to parent [] = []
replies_to parent ((k, rows) ∷ rest) = if k == parent then rows else replies_to parent rest

-- The first loop of `build_threaded_comment_views`, with the roots and the dict so far.
unfoldable pub collect_rows :
    List CommentRow → List CommentRow → Replies → List CommentRow × Replies
unfolding append_reply
collect_rows [] roots replies = (roots, replies)
collect_rows (row ∷ rows) roots replies = elim row.comment.parent_comment_id [
  | none ↦ collect_rows rows (roots ++ row ∷ []) replies
  | some parent ↦ collect_rows rows roots (append_reply parent row replies)
]

abbrev pub reply_views : List CommentRow → List CommentView
reply_views [] = []
reply_views (r ∷ rs) = build_comment_view 1 r ∷ reply_views rs

-- The second loop.
unfoldable pub thread_views : Replies → List CommentRow → List CommentView
unfolding replies_to build_comment_view
thread_views replies [] = []
thread_views replies (root ∷ roots) =
    build_comment_view 0 root
    ∷ (reply_views (replies_to root.comment.id replies) ++ thread_views replies roots)

unfoldable pub build_threaded_comment_views : List CommentRow → List CommentView
unfolding collect_rows thread_views
build_threaded_comment_views rows =
    let (roots, replies) = collect_rows rows [] [] in thread_views replies roots
