-- ===== src/Tests/Comments.antt =====
-- The theorems on comments at the sample database with a comment and a reply.
use task_ticket_management_s.Prelude.{
  ℕ, ◌≡◌, refl, true, false, none, some, List, [], ◌∷◌, inl, inr, In, is_some, select, arith,
  text_eq, upper, strip,
}
use task_ticket_management_s.Document.{
  Document, nil, cons, text_node, element, paragraph, empty_body_document, document_schema_version,
}
use task_ticket_management_s.Store.{Comment, Db}
use task_ticket_management_s.Action.{ok, transaction, ◌>>=◌}
use task_ticket_management_s.Projects.Access.{require_project_member, is_system_administrator, when}
use task_ticket_management_s.Projects.Queries.{find_user}
use task_ticket_management_s.Tickets.Guards.{get_ticket_row}
use task_ticket_management_s.Comments.{
  CommentCreate, create_comment, delete_comment, list_ticket_comments,
}
use task_ticket_management_s.Comments.Rows.{
  CommentRow, CommentView, list_comment_rows, build_comment_view, append_reply, replies_to,
  collect_rows, thread_views, build_threaded_comment_views,
}
use task_ticket_management_s.Comments.Threads.{is_root, threads, build_threaded_comment_views_lem}
use task_ticket_management_s.Comments.Shown.{list_comment_rows_complete, list_ticket_comments_hides}
use task_ticket_management_s.Validity.Comments.{HasRoot, IsValidComment, IsValidComments}
use task_ticket_management_s.System.{stays, goes_on, Step, Reaches-IsValidComments}
use task_ticket_management_s.Tests.{key_ab, key_ab_2, sample_env, sample_user, sample_db}

abbrev sample_body : Document
sample_body = cons (element paragraph [] (cons (text_node key_ab []) nil)) nil

-- A comment that is deleted, and a reply to it.
abbrev sample_comment : Comment
sample_comment = record {
  id = 1;
  project_id = 1;
  ticket_id = 2;
  parent_comment_id = none;
  author_id = 1;
  body_document = sample_body;
  body_schema_version = 2;
  version = 2;
  created_at = 100;
  updated_at = 200;
  deleted_at = some 200;
  deleted_by_id = some 2;
}

abbrev sample_reply : Comment
sample_reply = record sample_comment {
  id = 2;
  parent_comment_id = some 1;
  author_id = 2;
  version = 1;
  created_at = 150;
  updated_at = 150;
  deleted_at = none;
  deleted_by_id = none;
}

abbrev commented_db : Db
commented_db = record sample_db { comments = sample_comment ∷ sample_reply ∷ [] }

sample_comment-IsValidComment : IsValidComment sample_comment
unfolding document_schema_version
sample_comment-IsValidComment = record {
  positive = omega arith;
  deletion_pair = refl;
  schema = refl;
}

sample_reply-IsValidComment : IsValidComment sample_reply
unfolding document_schema_version
sample_reply-IsValidComment = record { positive = omega arith; deletion_pair = refl; schema = refl }

sample_reply-HasRoot : (p : ℕ) → some 1 ≡ some p → HasRoot commented_db.comments sample_reply p
sample_reply-HasRoot p e =
    let same : 1 ≡ p = cc in
    rw (← same) (record {
      root = sample_comment;
      stands = inl refl;
      is_parent = refl;
      is_root = refl;
      same_project = refl;
      same_ticket = refl;
    })

sample-IsValidComments : IsValidComments commented_db.comments
sample-IsValidComments = record {
  unique = (refl, (refl, tt));
  row = λ c m. elim m [
    | inl e ↦ rw e sample_comment-IsValidComment
    | inr (inl e) ↦ rw e sample_reply-IsValidComment
    | inr (inr empty) ↦ absurd empty
  ];
  reply = λ c m p h. elim m [
    | inl e ↦ let no_parent : none ≡ some p = rw e at h in cc
    | inr (inl e) ↦ rw e (sample_reply-HasRoot p (rw e at h))
    | inr (inr empty) ↦ absurd empty
  ];
}

abbrev sample_create : CommentCreate
sample_create = record { body_document = sample_body; parent_comment_id = none }

Reaches-IsValidComments_example :
    IsValidComments
      (delete_comment sample_env 2 key_ab key_ab_2 9 1
        (create_comment sample_env 2 key_ab key_ab_2 sample_create commented_db).1).1.comments
Reaches-IsValidComments_example =
    Reaches-IsValidComments commented_db
      (delete_comment sample_env 2 key_ab key_ab_2 9 1
        (create_comment sample_env 2 key_ab key_ab_2 sample_create commented_db).1).1
      (goes_on commented_db
        (create_comment sample_env 2 key_ab key_ab_2 sample_create commented_db).1
        (delete_comment sample_env 2 key_ab key_ab_2 9 1
          (create_comment sample_env 2 key_ab key_ab_2 sample_create commented_db).1).1
        (goes_on commented_db commented_db
          (create_comment sample_env 2 key_ab key_ab_2 sample_create commented_db).1
          (stays commented_db)
          (Step.creates_comment sample_env 2 key_ab key_ab_2 sample_create commented_db refl))
        (Step.deletes_comment sample_env 2 key_ab key_ab_2 9 1
          (create_comment sample_env 2 key_ab key_ab_2 sample_create commented_db).1))
      sample-IsValidComments

abbrev sample_rows : List CommentRow
sample_rows =
    record { comment = sample_reply; author = sample_user 2 }
    ∷ record { comment = sample_comment; author = sample_user 1 }
    ∷ []

build_threaded_comment_views_lem_example :
    build_threaded_comment_views sample_rows ≡ threads sample_rows (select is_root sample_rows)
build_threaded_comment_views_lem_example = build_threaded_comment_views_lem sample_rows

sample_authors :
    (c : Comment)
    → In c commented_db.comments
    → is_some (find_user c.author_id commented_db.users) ≡ true
sample_authors c m = elim m [
  | inl e ↦ rw e refl
  | inr (inl e) ↦ rw e refl
  | inr (inr empty) ↦ absurd empty
]

list_comment_rows_complete_example :
    (v : CommentView) × In v
      (build_threaded_comment_views (list_comment_rows commented_db 1 2 1 false))
    × (v.id ≡ 2)
list_comment_rows_complete_example =
    list_comment_rows_complete commented_db 1 2 1 false sample_authors sample-IsValidComments
      sample_reply (inr (inl refl)) refl

abbrev sample_views : List CommentView
sample_views =
    build_comment_view 0 (record { comment = sample_comment; author = sample_user 1 })
    ∷ build_comment_view 1 (record { comment = sample_reply; author = sample_user 2 })
    ∷ []

sample_list_run : (list_ticket_comments 2 key_ab key_ab_2 commented_db).0 ≡ ok sample_views
unfolding list_ticket_comments transaction ◌>>=◌ require_project_member is_system_administrator when
    get_ticket_row text_eq upper strip build_threaded_comment_views collect_rows append_reply
    thread_views replies_to
sample_list_run = refl

-- The deleted comment keeps its body in the table.
abbrev sample_hidden : CommentView
sample_hidden = build_comment_view 0 (record { comment = sample_comment; author = sample_user 1 })

sample_hidden_id : sample_hidden.id ≡ sample_comment.id
unfolding build_comment_view
sample_hidden_id = refl

list_ticket_comments_hides_example :
    (sample_hidden.is_deleted ≡ true)
    × (sample_hidden.body_document ≡ empty_body_document)
    × (sample_hidden.body_plain_text ≡ [])
list_ticket_comments_hides_example =
    list_ticket_comments_hides 2 key_ab key_ab_2 commented_db sample_views (refl, (refl, tt))
      sample_list_run sample_comment (inl refl) refl sample_hidden (inl refl) sample_hidden_id
