-- ===== src/Comments/Listed.antt =====
-- The rows that `_comment_select` of app/repositories/comments.py finds for the comments of the table.
use task_ticket_management_s.Prelude.{
  ℕ, ◌≡◌, refl, ◌∙◌, ap, Bool, true, Option, none, some, List, [], ◌∷◌, is_some, Option-cases, inl,
  inr, In, select-In, order_by-In,
}
use task_ticket_management_s.Store.{Comment, User, Db}
use task_ticket_management_s.Projects.Queries.{find_user}
use task_ticket_management_s.Comments.Rows.{
  CommentRow, with_author, to_comment_row, comment_query, by_created, comment_rows,
  list_comment_rows,
}

-- A row with its author, for each comment whose author is there.
abbrev pub HasRow : List CommentRow → Comment → Type 0
HasRow rows c = (r : CommentRow) × In r rows × (r.comment ≡ c)

to_comment_row-author :
    (db : Db) (c : Comment)
    → is_some (find_user c.author_id db.users) ≡ true
    → (r : CommentRow) × (to_comment_row db (some c) ≡ some r) × (r.comment ≡ c)
to_comment_row-author db c h = go (find_user c.author_id db.users) h
  where
    go :
        (o : Option User)
        → is_some o ≡ true
        → (r : CommentRow) × (with_author db c o ≡ some r) × (r.comment ≡ c)
    go none k = cc
    go (some u) k = (record { comment = c; author = u }, refl, refl)

comment_rows-some :
    (db : Db) (d : Comment) (cs : List Comment) (r : CommentRow)
    → to_comment_row db (some d) ≡ some r
    → comment_rows db (d ∷ cs) ≡ r ∷ comment_rows db cs
comment_rows-some db d cs r e = rw (comment_rows, e)

comment_rows-none :
    (db : Db) (d : Comment) (cs : List Comment)
    → to_comment_row db (some d) ≡ none
    → comment_rows db (d ∷ cs) ≡ comment_rows db cs
comment_rows-none db d cs e = rw (comment_rows, e)

pub comment_rows-In :
    (db : Db) (cs : List Comment) (c : Comment)
    → In c cs
    → is_some (find_user c.author_id db.users) ≡ true
    → HasRow (comment_rows db cs) c
comment_rows-In db [] c m h = absurd m
comment_rows-In db (d ∷ cs) c (inl e) h =
    let (r, found, same) = to_comment_row-author db c h in
    let step = comment_rows-some db c cs r found in rw (← e) (rw step (r, inl refl, same))
comment_rows-In db (d ∷ cs) c (inr m) h =
    let (r, n, same) = comment_rows-In db cs c m h in
    elim (Option-cases (to_comment_row db (some d))) [
      | inl e ↦ rw (comment_rows-none db d cs e) (r, n, same)
      | inr (x, e) ↦ rw (comment_rows-some db d cs x e) (r, inr n, same)
    ]

-- The comment of a row is one of those that the rows were made of.
to_comment_row-comment :
    (db : Db) (c : Comment) (r : CommentRow) → to_comment_row db (some c) ≡ some r → r.comment ≡ c
to_comment_row-comment db c r h = go (find_user c.author_id db.users) h
  where
    go : (o : Option User) → with_author db c o ≡ some r → r.comment ≡ c
    go none e = cc
    go (some u) e = let same : record { comment = c; author = u } ≡ r = cc in rw (← same) refl

In-comment_rows :
    (db : Db) (cs : List Comment) (r : CommentRow) → In r (comment_rows db cs) → In r.comment cs
In-comment_rows db [] r m = absurd m
In-comment_rows db (c ∷ cs) r m = elim (Option-cases (to_comment_row db (some c))) [
  | inl e ↦ inr (In-comment_rows db cs r (rw (comment_rows-none db c cs e) at m))
  | inr (x, e) ↦
      let found : In r (x ∷ comment_rows db cs) = rw (comment_rows-some db c cs x e) at m in
      elim found [
        | inl same ↦ inl (ap (λ (y : CommentRow). y.comment) same ∙ to_comment_row-comment db c x e)
        | inr n ↦ inr (In-comment_rows db cs r n)
      ]
]

pub In-list_comment_rows :
    (db : Db) (pid tid actor : ℕ) (override : Bool) (r : CommentRow)
    → In r (list_comment_rows db pid tid actor override)
    → In r.comment db.comments
In-list_comment_rows db pid tid actor override r m =
    (select-In (comment_query db pid tid actor override) db.comments r.comment
      (order_by-In by_created _ r.comment (In-comment_rows db _ r m))).0
