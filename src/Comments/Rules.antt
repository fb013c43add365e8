-- ===== src/Comments/Rules.antt =====
-- What the comment services know of a comment that they have read, and the rules for reading it.
use task_ticket_management_s.Prelude.{
  ℕ, ◌≡◌, refl, Bool, false, Option, none, some, List, In, find_first-In, &&-true, ==→eq, is_none,
  is_none→eq, is_some, ◌&&◌, ◌==◌,
}
use task_ticket_management_s.Document.{Document}
use task_ticket_management_s.Store.{Comment, User, Db}
use task_ticket_management_s.Action.{Env, Action, pure, ◌>>=◌}
use task_ticket_management_s.Action.Triple.{
  Returns, returned, Returns-bind, Returns-gets, Returns-or_raise, Returns-or_raise_last,
  Returns-raise_if_last,
}
use task_ticket_management_s.Action.Frame.{Keeps, keeps_rules, Returns-Keeps}
use task_ticket_management_s.Projects.Queries.{find_user}
use task_ticket_management_s.Projects.Access.{ProjectView, uses_system_administrator_override}
use task_ticket_management_s.Tickets.Queries.{project_scope}
use task_ticket_management_s.Mentions.{validate_mentions}
use task_ticket_management_s.Comments.Rows.{
  CommentRow, with_author, to_comment_row, comment_query, active_comment_row,
}
use task_ticket_management_s.Comments.{
  get_active_comment_row, require_reply_parent, validate_comment_body,
}

-- The comment stands in the table, with that id, on that ticket, and is not deleted.
pub record IsActiveComment (cs : List Comment) (pid tid cid : ℕ) (c : Comment) : Type 0 where
  pub stands : In c cs
  pub has_id : c.id ≡ cid
  pub active : c.deleted_at ≡ none
  pub of_project : c.project_id ≡ pid
  pub of_ticket : c.ticket_id ≡ tid

with_author-some :
    (db : Db) (c : Comment) (o : Option User) (r : CommentRow)
    → with_author db c o ≡ some r
    → r.comment ≡ c
with_author-some db c none r h = cc
with_author-some db c (some u) r h = cc

to_comment_row-some :
    (db : Db) (o : Option Comment) (r : CommentRow)
    → to_comment_row db o ≡ some r
    → o ≡ some r.comment
to_comment_row-some db none r h = cc
to_comment_row-some db (some c) r h =
    let same = with_author-some db c (find_user c.author_id db.users) r h in cc

pub active_comment_row-facts :
    (db : Db) (pid tid cid actor : ℕ) (override : Bool) (r : CommentRow)
    → active_comment_row db pid tid cid actor override ≡ some r
    → IsActiveComment db.comments pid tid cid r.comment
active_comment_row-facts db pid tid cid actor override r h =
    let c = r.comment in
    let (m, q) = find_first-In _ db.comments c (to_comment_row-some db _ r h) in
    let (left, out) =
      &&-true (comment_query db pid tid actor override c && (c.id == cid)) (is_none c.deleted_at)
        q in
    let (query, same) = &&-true (comment_query db pid tid actor override c) (c.id == cid) left in
    let (rest, ticket) =
      &&-true
        (is_some (find_user c.author_id db.users)
          && project_scope db c.project_id actor override
          && (c.project_id == pid))
        (c.ticket_id == tid) query in
    let (_, project) =
      &&-true
        (is_some (find_user c.author_id db.users) && project_scope db c.project_id actor override)
        (c.project_id == pid) rest in
    record {
      stands = m;
      has_id = ==→eq c.id cid same;
      active = is_none→eq c.deleted_at out;
      of_project = ==→eq c.project_id pid project;
      of_ticket = ==→eq c.ticket_id tid ticket;
    }

-- The parent of a new comment, if it names one: a root that is there.
abbrev pub IsReplyParent : List Comment → ℕ → ℕ → Option ℕ → Type 0
IsReplyParent cs pid tid none = Unit
IsReplyParent cs pid tid (some parent) =
    (c : Comment) × IsActiveComment cs pid tid parent c × (c.parent_comment_id ≡ none)

is_some-false : {A : Type 0} (o : Option A) → is_some o ≡ false → o ≡ none
is_some-false none h = refl
is_some-false (some a) h = cc

module _ (actor : ℕ) (p : ProjectView) (tid : ℕ) (db : Db) where
  get_active_comment_row-Returns :
      (cid : ℕ)
      → Returns
          (λ r d. (d ≡ db) × IsActiveComment db.comments p.id tid cid r.comment)
          (get_active_comment_row actor p tid cid db)
  unfolding get_active_comment_row
  get_active_comment_row-Returns cid = Returns-gets _ _ _ db (
      Returns-or_raise_last _ _ _ db λ r found. (
        refl,
        active_comment_row-facts db p.id tid cid actor (uses_system_administrator_override p) r
            found,
      ))

  -- The rule for reading a comment.
  pub Returns-comment :
      {B : Type 0} (Q : B → Db → Type 0) (cid : ℕ) (k : CommentRow → Action B)
      → ((r : CommentRow) → IsActiveComment db.comments p.id tid cid r.comment → Returns Q (k r db))
      → Returns Q ((get_active_comment_row actor p tid cid >>= k) db)
  Returns-comment Q cid k next =
      Returns-bind Q _ _ k db (get_active_comment_row-Returns cid)
        λ r d (e, facts). rw e (next r facts)

  require_reply_parent-Returns :
      (parent : Option ℕ)
      → Returns
          (λ _ d. (d ≡ db) × IsReplyParent db.comments p.id tid parent)
          (require_reply_parent actor p tid parent db)
  unfolding require_reply_parent pure
  require_reply_parent-Returns none = returned tt db (refl, tt)
  require_reply_parent-Returns (some parent) = Returns-gets _ _ _ db (
      Returns-or_raise _ _ _ _ db λ r found. Returns-raise_if_last _ _ _ db λ top. (
        refl,
        (
          r.comment,
          active_comment_row-facts db p.id tid parent actor (uses_system_administrator_override p) r
              found,
          is_some-false r.comment.parent_comment_id top,
        ),
      ))

  -- The rule for the parent of a reply.
  pub Returns-reply_parent :
      {B : Type 0} (Q : B → Db → Type 0) (parent : Option ℕ) (k : Unit {0} → Action B)
      → (IsReplyParent db.comments p.id tid parent → Returns Q (k tt db))
      → Returns Q ((require_reply_parent actor p tid parent >>= k) db)
  Returns-reply_parent Q parent k next =
      Returns-bind Q _ _ k db (require_reply_parent-Returns parent)
        λ _ d (e, facts). rw e (next facts)

module _ (P : Db → Type 0) where
  validate_mentions-Keeps :
      (env : Env) (pid : ℕ) (d : Document) → Keeps P (validate_mentions env pid d)
  unfolding validate_mentions
  validate_mentions-Keeps env pid d = search keeps_rules depth 30 fits 2000

  pub validate_comment_body-Keeps :
      (env : Env) (pid tid : ℕ) (d : Document) → Keeps P (validate_comment_body env pid tid d)
  unfolding validate_comment_body
  validate_comment_body-Keeps env pid tid d =
      search (keeps_rules, validate_mentions-Keeps) depth 30 fits 2000

  pub get_active_comment_row-Keeps :
      (actor : ℕ) (p : ProjectView) (tid cid : ℕ) → Keeps P (get_active_comment_row actor p tid cid)
  unfolding get_active_comment_row
  get_active_comment_row-Keeps actor p tid cid = search keeps_rules depth 10

  pub require_reply_parent-Keeps :
      (actor : ℕ) (p : ProjectView) (tid : ℕ) (parent : Option ℕ)
      → Keeps P (require_reply_parent actor p tid parent)
  unfolding require_reply_parent
  require_reply_parent-Keeps actor p tid none = search keeps_rules
  require_reply_parent-Keeps actor p tid (some parent) = search keeps_rules depth 20

-- The rule for the check of a comment's body, which writes nothing.
pub Returns-body :
    {B : Type 0} (Q : B → Db → Type 0) (env : Env) (pid tid : ℕ) (body : Document)
    (k : Document → Action B) (db : Db)
    → ((d : Document) → Returns Q (k d db))
    → Returns Q ((validate_comment_body env pid tid body >>= k) db)
Returns-body Q env pid tid body k db next =
    Returns-bind Q (λ _ d. d ≡ db) _ k db
      (Returns-Keeps (λ d. d ≡ db) _ db (validate_comment_body-Keeps (λ d. d ≡ db) env pid tid body)
        refl)
      λ doc d e. rw e (next doc)
