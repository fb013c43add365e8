-- ===== src/Comments/Shown.antt =====
-- Which comments the list of a ticket's comments shows, and what it shows of a deleted one.
use task_ticket_management_s.Prelude.{
  ℕ, ◌≤◌, arith, ◌≡◌, refl, sym, ◌∙◌, ap, Bool, true, none, some, List, [], ◌∷◌, ◌==◌, ==_refl,
  is_some, select, Option-cases, inl, inr, ◌⊎◌, In, In-select, select-In, In-append, In-append_left,
  In-append_right, In-order_by, ◌&&◌, &&-true, Text,
}
use task_ticket_management_s.Document.{empty_body_document}
use task_ticket_management_s.Store.{Comment, Db}
use task_ticket_management_s.Action.{ok}
use task_ticket_management_s.Action.Triple.{
  Returns, Returns-gets, Returns-pure, Returns-elim, Returns-transaction,
}
use task_ticket_management_s.Projects.Access.Rules.{Returns-access}
use task_ticket_management_s.Tickets.Guards.Rules.{Returns-row}
use task_ticket_management_s.Comments.{list_ticket_comments}
use task_ticket_management_s.Projects.Queries.{find_user}
use task_ticket_management_s.Tickets.Queries.{project_scope}
use task_ticket_management_s.Comments.Rows.{
  CommentRow, CommentView, comment_query, by_created, list_comment_rows, build_comment_view,
  reply_views, build_threaded_comment_views,
}
use task_ticket_management_s.Comments.Threads.{
  is_root, is_reply_to, threads, build_threaded_comment_views_lem,
}
use task_ticket_management_s.Validity.Comments.{IsValidComments, comment_ids, same_comment}
use task_ticket_management_s.Validity.Ids.{NoDup}
use task_ticket_management_s.Comments.Listed.{HasRow, comment_rows-In, In-list_comment_rows}

-- The view is one of a row.
abbrev IsViewOf : CommentRow → CommentView → Type 0
IsViewOf row v = v.id ≡ row.comment.id

reply_views-In :
    (rows : List CommentRow) (row : CommentRow)
    → In row rows
    → In (build_comment_view 1 row) (reply_views rows)
reply_views-In [] row m = absurd m
reply_views-In (r ∷ rows) row (inl e) = inl (ap (build_comment_view 1) e)
reply_views-In (r ∷ rows) row (inr m) = inr (reply_views-In rows row m)

threads-root :
    (rows roots : List CommentRow) (r : CommentRow)
    → In r roots
    → In (build_comment_view 0 r) (threads rows roots)
threads-root rows [] r m = absurd m
threads-root rows (root ∷ roots) r (inl e) = inl (ap (build_comment_view 0) e)
threads-root rows (root ∷ roots) r (inr m) = inr (
    In-append_right (reply_views (select (is_reply_to root.comment.id) rows)) _ _
      (threads-root rows roots r m))

threads-reply :
    (rows roots : List CommentRow) (r c : CommentRow)
    → In r roots
    → In c rows
    → c.comment.parent_comment_id ≡ some r.comment.id
    → In (build_comment_view 1 c) (threads rows roots)
threads-reply rows [] r c m n e = absurd m
threads-reply rows (root ∷ roots) r c (inl same) n e =
    let answers : is_reply_to root.comment.id c ≡ true =
      simp (e, ap (λ (x : CommentRow). x.comment.id) same, ==_refl) in
    inr (
      In-append_left _ _ _
        (reply_views-In _ c (In-select (is_reply_to root.comment.id) rows c n answers)))
threads-reply rows (root ∷ roots) r c (inr m) n e = inr (
    In-append_right (reply_views (select (is_reply_to root.comment.id) rows)) _ _
      (threads-reply rows roots r c m n e))

-- The row of a comment whose parent, if it has one, is a root that has a row: the row is shown.
shown_row :
    (rows : List CommentRow) (r : CommentRow)
    → In r rows
    → (r.comment.parent_comment_id ≡ none)
      ⊎ ((root : CommentRow) × In root rows
          × (root.comment.parent_comment_id ≡ none)
          × (r.comment.parent_comment_id ≡ some root.comment.id))
    → (v : CommentView) × In v (build_threaded_comment_views rows) × IsViewOf r v
unfolding build_comment_view
shown_row rows r m (inl top) = rw (build_threaded_comment_views_lem rows) (
  build_comment_view 0 r,
  threads-root rows (select is_root rows) r (In-select is_root rows r m (simp top)),
  refl,
)
shown_row rows r m (inr (root, n, top, e)) = rw (build_threaded_comment_views_lem rows) (
  build_comment_view 1 r,
  threads-reply rows (select is_root rows) root r (In-select is_root rows root n (simp top)) m e,
  refl,
)

module _ (db : Db) (pid tid actor : ℕ) (override : Bool)
    (authors : (c : Comment)
      → In c db.comments
      → is_some (find_user c.author_id db.users) ≡ true) where
  listed :
      (c : Comment)
      → In c db.comments
      → comment_query db pid tid actor override c ≡ true
      → HasRow (list_comment_rows db pid tid actor override) c
  listed c m q =
      comment_rows-In db _ c
        (In-order_by by_created _ c
          (In-select (comment_query db pid tid actor override) db.comments c m q))
        (authors c m)

  -- A root of the same project and ticket fits the query if its reply does.
  root_query :
      (c root : Comment)
      → In root db.comments
      → root.project_id ≡ c.project_id
      → root.ticket_id ≡ c.ticket_id
      → comment_query db pid tid actor override c ≡ true
      → comment_query db pid tid actor override root ≡ true
  root_query c root m project ticket q =
      let scope : Bool = project_scope db c.project_id actor override in
      let (left, on_ticket) =
        &&-true (is_some (find_user c.author_id db.users) && scope && (c.project_id == pid))
          (c.ticket_id == tid) q in
      let (more, of_project) =
        &&-true (is_some (find_user c.author_id db.users) && scope) (c.project_id == pid) left in
      let (_, scoped) = &&-true (is_some (find_user c.author_id db.users)) scope more in
      let author = authors root m in rw (author, project, ticket, scoped, of_project, on_ticket)

  -- If the comments' table is valid and the author of each comment has a row, then each comment
  -- that the query for a ticket selects, deleted ones included, has a view in the list that
  -- `build_threaded_comment_views` makes of the rows that `list_comment_rows` finds.
  pub list_comment_rows_complete :
      IsValidComments db.comments
      → (c : Comment) → In c db.comments
      → comment_query db pid tid actor override c ≡ true
      → (v : CommentView) × In v
          (build_threaded_comment_views (list_comment_rows db pid tid actor override))
        × (v.id ≡ c.id)
  list_comment_rows_complete valid c m q =
      let (r, n, same) = listed c m q in
      let (v, shown, id) =
        shown_row (list_comment_rows db pid tid actor override) r n (top r same) in
      (v, shown, id ∙ ap (λ (x : Comment). x.id) same)
    where
      top :
          (r : CommentRow)
          → r.comment ≡ c
          → (r.comment.parent_comment_id ≡ none)
            ⊎ ((root : CommentRow) × In root (list_comment_rows db pid tid actor override)
                × (root.comment.parent_comment_id ≡ none)
                × (r.comment.parent_comment_id ≡ some root.comment.id))
      top r same = elim (Option-cases c.parent_comment_id) [
        | inl e ↦ inl (ap (λ (x : Comment). x.parent_comment_id) same ∙ e)
        | inr (p, e) ↦
            let h = valid.reply c m p e in
            let (root, n, is) =
              listed h.root h.stands
                (root_query c h.root h.stands h.same_project h.same_ticket q) in
            inr (
              root,
              n,
              ap (λ (x : Comment). x.parent_comment_id) is ∙ h.is_root,
              ap (λ (x : Comment). x.parent_comment_id) same
                  ∙ e
                  ∙ ap some (sym (ap (λ (x : Comment). x.id) is ∙ h.is_parent)),
            )
      ]

-- The view is one of a row of the list, at depth 0 or 1.
abbrev IsShown : List CommentRow → CommentView → Type 0
IsShown rows v =
    (depth : ℕ) × (r : CommentRow) × In r rows × (depth ≤ 1) × (v ≡ build_comment_view depth r)

reply_views-IsShown :
    (rows some_rows : List CommentRow) (v : CommentView)
    → ((r : CommentRow) → In r some_rows → In r rows)
    → In v (reply_views some_rows)
    → IsShown rows v
reply_views-IsShown rows [] v h m = absurd m
reply_views-IsShown rows (r ∷ rs) v h (inl e) = (1, r, h r (inl refl), omega arith, e)
reply_views-IsShown rows (r ∷ rs) v h (inr m) = reply_views-IsShown rows rs v (λ x n. h x (inr n)) m

threads-IsShown :
    (rows roots : List CommentRow) (v : CommentView)
    → ((r : CommentRow) → In r roots → In r rows)
    → In v (threads rows roots)
    → IsShown rows v
threads-IsShown rows [] v h m = absurd m
threads-IsShown rows (root ∷ roots) v h (inl e) = (0, root, h root (inl refl), omega arith, e)
threads-IsShown rows (root ∷ roots) v h (inr m) =
    elim (In-append (reply_views (select (is_reply_to root.comment.id) rows)) (threads rows roots) v
      m) [
        | inl l ↦
            reply_views-IsShown rows _ v
              (λ r n. (select-In (is_reply_to root.comment.id) rows r n).0) l
        | inr r ↦ threads-IsShown rows roots v (λ x n. h x (inr n)) r
      ]

-- The view is one of a comment of the table, at depth 0 or 1.
abbrev IsShownOf : List Comment → CommentView → Type 0
IsShownOf cs v =
    (depth : ℕ) × (r : CommentRow) × In r.comment cs
    × (depth ≤ 1)
    × (v ≡ build_comment_view depth r)

abbrev AllShown : List Comment → List CommentView → Type 0
AllShown cs views = (v : CommentView) → In v views → IsShownOf cs v

built-AllShown :
    (db : Db) (pid tid actor : ℕ) (override : Bool)
    → AllShown db.comments
        (build_threaded_comment_views (list_comment_rows db pid tid actor override))
built-AllShown db pid tid actor override v m =
    let rows : List CommentRow = list_comment_rows db pid tid actor override in
    let (depth, r, n, low, same) =
      threads-IsShown rows (select is_root rows) v (λ r k. (select-In is_root rows r k).0)
        (rw (build_threaded_comment_views_lem rows) at m) in
    (depth, r, In-list_comment_rows db pid tid actor override r n, low, same)

list_ticket_comments-Returns :
    (actor : ℕ) (project_key ticket_key : Text) (db : Db)
    → Returns
        (λ views d. AllShown db.comments views)
        (list_ticket_comments actor project_key ticket_key db)
unfolding list_ticket_comments
list_ticket_comments-Returns actor project_key ticket_key db = Returns-transaction _ _ _ (
    Returns-access _ _ _ _ db _ _ λ p xs access. Returns-row _ _ _ _ _ _ λ row at_row.
      Returns-gets _ _ _ _
        (Returns-pure _ _ _ (built-AllShown (record db { audits = xs }) _ _ _ _)))

-- What a view shows of a row that is deleted.
hides :
    (depth : ℕ) (r : CommentRow)
    → is_some r.comment.deleted_at ≡ true
    → ((build_comment_view depth r).is_deleted ≡ true)
      × ((build_comment_view depth r).body_document ≡ empty_body_document)
      × ((build_comment_view depth r).body_plain_text ≡ [])
unfolding build_comment_view
hides depth r e = (e, rw e, rw e)

-- If the ids of the comments are unique, `list_ticket_comments` returns views, and a comment of
-- the table has a time of deletion, then each view with its id says that it is deleted, and has
-- the empty document as its body and no plain text, whatever the row still holds.
pub list_ticket_comments_hides :
    (actor : ℕ) (project_key ticket_key : Text) (db : Db) (views : List CommentView)
    → NoDup (comment_ids db.comments)
    → (list_ticket_comments actor project_key ticket_key db).0 ≡ ok views
    → (c : Comment) → In c db.comments
    → is_some c.deleted_at ≡ true
    → (v : CommentView) → In v views
    → v.id ≡ c.id
    → (v.is_deleted ≡ true) × (v.body_document ≡ empty_body_document) × (v.body_plain_text ≡ [])
unfolding build_comment_view
list_ticket_comments_hides actor project_key ticket_key db views unique returns c m deleted v n id =
    let all =
      Returns-elim _ _ views (list_ticket_comments-Returns actor project_key ticket_key db)
        returns in
    let (depth, r, k, _, same) = all v n in
    let is : r.comment ≡ c =
      same_comment db.comments r.comment c unique k m
        (sym (ap (λ (w : CommentView). w.id) same) ∙ id) in
    rw same (hides depth r (ap (λ (d : Comment). is_some d.deleted_at) is ∙ deleted))

-- If `list_ticket_comments` returns views, each of them is at depth 0 or 1.
pub list_ticket_comments_depth :
    (actor : ℕ) (project_key ticket_key : Text) (db : Db) (views : List CommentView)
    → (list_ticket_comments actor project_key ticket_key db).0 ≡ ok views
    → (v : CommentView) → In v views
    → v.depth ≤ 1
unfolding build_comment_view
list_ticket_comments_depth actor project_key ticket_key db views returns v m =
    let all =
      Returns-elim _ _ views (list_ticket_comments-Returns actor project_key ticket_key db)
        returns in
    let (depth, r, _, low, same) = all v m in rw same low
