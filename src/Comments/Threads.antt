-- ===== src/Comments/Threads.antt =====
-- The thread that `build_threaded_comment_views` of app/services/comments.py shows, against a
-- description of it without the dict and the loops.
use task_ticket_management_s.Prelude.{
  ℕ, ◌≡◌, refl, ap, sym, Bool, false, none, some, List, [], ◌∷◌, ◌++◌, ◌==◌, ==_refl, ==→eq,
  is_none, select, option_eq, if◌then◌else◌, Bool-cases, Option-cases, inl, inr,
}
use task_ticket_management_s.Comments.Rows.{
  CommentRow, CommentView, build_comment_view, Replies, append_reply, replies_to, collect_rows,
  reply_views, thread_views, build_threaded_comment_views,
}

abbrev pub is_root : CommentRow → Bool
is_root row = is_none row.comment.parent_comment_id

abbrev pub is_reply_to : ℕ → CommentRow → Bool
is_reply_to p row = option_eq row.comment.parent_comment_id (some p)

-- The roots, each with its replies among all the rows.
abbrev pub threads : List CommentRow → List CommentRow → List CommentView
threads rows [] = []
threads rows (root ∷ roots) =
    build_comment_view 0 root
    ∷ (reply_views (select (is_reply_to root.comment.id) rows) ++ threads rows roots)

++_assoc : {A : Type 0} (xs ys zs : List A) → (xs ++ ys) ++ zs ≡ xs ++ (ys ++ zs)
++_assoc [] ys zs = refl
++_assoc (x ∷ xs) ys zs = ap (λ ws. x ∷ ws) (++_assoc xs ys zs)

++_nil : {A : Type 0} (xs : List A) → xs ++ [] ≡ xs
++_nil [] = refl
++_nil (x ∷ xs) = ap (λ ws. x ∷ ws) (++_nil xs)

replies_to-append_reply_same :
    (p : ℕ) (row : CommentRow) (rs : Replies)
    → replies_to p (append_reply p row rs) ≡ replies_to p rs ++ row ∷ []
unfolding replies_to append_reply
replies_to-append_reply_same p row [] = rw (==_refl p)
replies_to-append_reply_same p row ((k, rows) ∷ rest) = elim (Bool-cases (k == p)) [
  | inl t ↦ rw (t, t)
  | inr f ↦ rw (f, f) (replies_to-append_reply_same p row rest)
]

replies_to-append_reply_other :
    (p q : ℕ) (row : CommentRow) (rs : Replies)
    → (q == p) ≡ false
    → replies_to p (append_reply q row rs) ≡ replies_to p rs
unfolding replies_to append_reply
replies_to-append_reply_other p q row [] h = rw h
replies_to-append_reply_other p q row ((k, rows) ∷ rest) h = elim (Bool-cases (k == q)) [
  | inl t ↦ let other : (k == p) ≡ false = rw (==→eq k q t) h in rw (t, other)
  | inr f ↦ elim (Bool-cases (k == p)) [
    | inl t ↦ rw (f, t)
    | inr g ↦ rw (f, g) (replies_to-append_reply_other p q row rest h)
  ]
]

-- One round of the first loop.
collect_root :
    (row : CommentRow) (rows roots : List CommentRow) (rs : Replies)
    → row.comment.parent_comment_id ≡ none
    → (collect_rows (row ∷ rows) roots rs ≡ collect_rows rows (roots ++ row ∷ []) rs)
      × (select is_root (row ∷ rows) ≡ row ∷ select is_root rows)
      × ((p : ℕ) → select (is_reply_to p) (row ∷ rows) ≡ select (is_reply_to p) rows)
unfolding collect_rows
collect_root row rows roots rs e = (simp e, simp e, λ p. simp e)

collect_reply :
    (row : CommentRow) (rows roots : List CommentRow) (rs : Replies) (q : ℕ)
    → row.comment.parent_comment_id ≡ some q
    → (collect_rows (row ∷ rows) roots rs ≡ collect_rows rows roots (append_reply q row rs))
      × (select is_root (row ∷ rows) ≡ select is_root rows)
      × ((p : ℕ)
          → select (is_reply_to p) (row ∷ rows)
            ≡ (if q == p then row ∷ select (is_reply_to p) rows else select (is_reply_to p) rows))
unfolding collect_rows
collect_reply row rows roots rs q e = (simp e, simp e, λ p. simp e)

-- The first loop finds the roots, and for each of them its replies, in the order of the rows.
collect_rows-roots :
    (rows roots : List CommentRow) (rs : Replies)
    → (collect_rows rows roots rs).0 ≡ roots ++ select is_root rows
unfolding collect_rows
collect_rows-roots [] roots rs = sym (++_nil roots)
collect_rows-roots (row ∷ rows) roots rs = elim (Option-cases row.comment.parent_comment_id) [
  | inl e ↦
      let (loop, here, _) = collect_root row rows roots rs e in
      let rest = collect_rows-roots rows (roots ++ row ∷ []) rs in
      let moved = ++_assoc roots (row ∷ []) (select is_root rows) in cc
  | inr (q, e) ↦
      let (loop, here, _) = collect_reply row rows roots rs q e in
      let rest = collect_rows-roots rows roots (append_reply q row rs) in cc
]

collect_rows-replies :
    (rows roots : List CommentRow) (rs : Replies) (p : ℕ)
    → replies_to p (collect_rows rows roots rs).1 ≡ replies_to p rs ++ select (is_reply_to p) rows
unfolding collect_rows
collect_rows-replies [] roots rs p = sym (++_nil (replies_to p rs))
collect_rows-replies (row ∷ rows) roots rs p = elim (Option-cases row.comment.parent_comment_id) [
  | inl e ↦
      let (loop, _, here) = collect_root row rows roots rs e in
      let same = here p in let rest = collect_rows-replies rows (roots ++ row ∷ []) rs p in cc
  | inr (q, e) ↦
      let (loop, _, here) = collect_reply row rows roots rs q e in
      let rest = collect_rows-replies rows roots (append_reply q row rs) p in
      elim (Bool-cases (q == p)) [
        | inl t ↦
            let same : q ≡ p = ==→eq q p t in
            let more : select (is_reply_to p) (row ∷ rows) ≡ row ∷ select (is_reply_to p) rows =
              rw t at (here p) in
            let added = replies_to-append_reply_same p row rs in
            let moved = ++_assoc (replies_to p rs) (row ∷ []) (select (is_reply_to p) rows) in cc
        | inr f ↦
            let none_more : select (is_reply_to p) (row ∷ rows) ≡ select (is_reply_to p) rows =
              rw f at (here p) in
            let added = replies_to-append_reply_other p q row rs f in cc
      ]
]

-- The second loop, where the dict holds each root's replies.
thread_views_lem :
    (rows roots : List CommentRow) (rs : Replies)
    → ((p : ℕ) → replies_to p rs ≡ select (is_reply_to p) rows)
    → thread_views rs roots ≡ threads rows roots
unfolding thread_views
thread_views_lem rows [] rs h = refl
thread_views_lem rows (root ∷ roots) rs h =
    let first = h root.comment.id in let rest = thread_views_lem rows roots rs h in cc

-- For any rows, what `build_threaded_comment_views` shows is the rows without a parent in their
-- order, each at depth 0 and followed by all rows that name it as their parent, in their order, at
-- depth 1.
pub build_threaded_comment_views_lem :
    (rows : List CommentRow)
    → build_threaded_comment_views rows ≡ threads rows (select is_root rows)
unfolding build_threaded_comment_views
build_threaded_comment_views_lem rows =
    rw (collect_rows-roots rows [] [])
      (thread_views_lem rows (select is_root rows) _ (λ p. collect_rows-replies rows [] [] p))
