-- ===== src/Validity/Comments.antt =====
-- The comments' table: the CHECK constraints of app/models/content.py on `comments`, and the rule of
-- app/services/comments.py that a thread has one level of replies.
use task_ticket_management_s.Prelude.{
  ℕ, ◌<◌, ◌≡◌, refl, sym, ◌∙◌, false, some, none, List, [], ◌∷◌, ◌++◌, map, inl, inr, arith, ◌==◌,
  ==→eq, Bool-cases, if◌then◌else◌, is_some, ap, member, In, In-append, In-append_left, In-map,
  map-In, any-false,
}
use task_ticket_management_s.Document.{document_schema_version}
use task_ticket_management_s.Store.{Comment}
use task_ticket_management_s.Comments.{put_comment}
use task_ticket_management_s.Validity.Ids.{NoDup, NoDup-append}

-- The comment that a reply answers: a root of the same ticket.
pub record HasRoot (cs : List Comment) (c : Comment) (p : ℕ) : Type 0 where
  pub root : Comment
  pub stands : In root cs
  pub is_parent : root.id ≡ p
  pub is_root : root.parent_comment_id ≡ none
  pub same_project : root.project_id ≡ c.project_id
  pub same_ticket : root.ticket_id ≡ c.ticket_id

pub record IsValidComment (c : Comment) : Type 0 where
  pub positive : 0 < c.version
  pub deletion_pair : is_some c.deleted_at ≡ is_some c.deleted_by_id
  pub schema : c.body_schema_version ≡ document_schema_version c.body_document

abbrev pub comment_ids : List Comment → List ℕ
comment_ids cs = map (λ c. c.id) cs

pub record IsValidComments (cs : List Comment) : Type 0 where
  pub unique : NoDup (comment_ids cs)
  pub row : (c : Comment) → In c cs → IsValidComment c
  pub reply : (c : Comment) → In c cs → (p : ℕ) → c.parent_comment_id ≡ some p → HasRoot cs c p

-- Two comments with one id are the same row.
pub same_comment :
    (cs : List Comment) (c d : Comment)
    → NoDup (comment_ids cs)
    → In c cs
    → In d cs
    → c.id ≡ d.id
    → c ≡ d
same_comment [] c d u m n e = absurd m
same_comment (x ∷ cs) c d u (inl h) (inl k) e = cc
same_comment (x ∷ cs) c d u (inl h) (inr n) e =
    let absent =
      any-false (λ (i : ℕ). i == x.id) (comment_ids cs) d.id u.0
        (In-map (λ (u : Comment). u.id) cs d n) in
    absurd (ground (arith, h, ap (λ (c : Comment). c.id) h))
same_comment (x ∷ cs) c d u (inr m) (inl k) e =
    let absent =
      any-false (λ (i : ℕ). i == x.id) (comment_ids cs) c.id u.0
        (In-map (λ (u : Comment). u.id) cs c m) in
    absurd (ground (arith, k, ap (λ (c : Comment). c.id) k))
same_comment (x ∷ cs) c d u (inr m) (inr n) e = same_comment cs c d u.1 m n e

comment_ids-append :
    (cs : List Comment) (c : Comment) → comment_ids (cs ++ c ∷ []) ≡ comment_ids cs ++ c.id ∷ []
comment_ids-append [] c = refl
comment_ids-append (d ∷ cs) c = ap (λ (is : List ℕ). d.id ∷ is) (comment_ids-append cs c)

HasRoot-append :
    (cs : List Comment) (n c : Comment) (p : ℕ) → HasRoot cs c p → HasRoot (cs ++ n ∷ []) c p
HasRoot-append cs n c p h = record {
  root = h.root;
  stands = In-append_left cs (n ∷ []) h.root h.stands;
  is_parent = h.is_parent;
  is_root = h.is_root;
  same_project = h.same_project;
  same_ticket = h.same_ticket;
}

-- A new row with an unused id.
pub append-IsValidComments :
    (cs : List Comment) (n : Comment)
    → IsValidComments cs
    → member n.id (comment_ids cs) ≡ false
    → IsValidComment n
    → ((p : ℕ) → n.parent_comment_id ≡ some p → HasRoot cs n p)
    → IsValidComments (cs ++ n ∷ [])
append-IsValidComments cs n v fresh row reply = record {
  unique = rw (comment_ids-append cs n) (NoDup-append n.id (comment_ids cs) v.unique fresh);
  row = λ c m. elim (In-append cs (n ∷ []) c m) [
    | inl old ↦ v.row c old
    | inr (inl e) ↦ rw e row
    | inr (inr empty) ↦ absurd empty
  ];
  reply = λ c m p e. HasRoot-append cs n c p (elim (In-append cs (n ∷ []) c m) [
    | inl old ↦ v.reply c old p e
    | inr (inl same) ↦ rw same (reply p (rw same at e))
    | inr (inr empty) ↦ absurd empty
  ]);
}

-- A changed row that stays where the old one is.
pub record IsEdit (cs : List Comment) (old changed : Comment) : Type 0 where
  pub stands : In old cs
  pub keeps_id : changed.id ≡ old.id
  pub same_project : changed.project_id ≡ old.project_id
  pub same_ticket : changed.ticket_id ≡ old.ticket_id
  pub same_parent : changed.parent_comment_id ≡ old.parent_comment_id
  pub row : IsValidComment changed

module _ (cs : List Comment) (old changed : Comment) (v : IsValidComments cs)
    (edit : IsEdit cs old changed) where
  abbrev put : Comment → Comment
  put d = if d.id == changed.id then changed else d

  -- What the update leaves of a row.
  record IsMoved (c d : Comment) : Type 0 where
    keeps_id : d.id ≡ c.id
    same_project : d.project_id ≡ c.project_id
    same_ticket : d.ticket_id ≡ c.ticket_id
    same_parent : d.parent_comment_id ≡ c.parent_comment_id
    row : IsValidComment d

  put-IsMoved : (c : Comment) → In c cs → IsMoved c (put c)
  put-IsMoved c m = elim (Bool-cases (c.id == changed.id)) [
    | inl t ↦
        let same : c ≡ old =
          same_comment cs c old v.unique m edit.stands (==→eq c.id changed.id t ∙ edit.keeps_id) in
        rw (t, same)
          (record {
            keeps_id = edit.keeps_id;
            same_project = edit.same_project;
            same_ticket = edit.same_ticket;
            same_parent = edit.same_parent;
            row = edit.row;
          })
    | inr f ↦ rw f (record {
      keeps_id = refl;
      same_project = refl;
      same_ticket = refl;
      same_parent = refl;
      row = v.row c m;
    })
  ]

  comment_ids-put :
      (ds : List Comment)
      → ((c : Comment) → In c ds → In c cs)
      → comment_ids (map put ds) ≡ comment_ids ds
  comment_ids-put [] sub = refl
  comment_ids-put (d ∷ ds) sub =
      let first = (put-IsMoved d (sub d (inl refl))).keeps_id in
      let rest = comment_ids-put ds (λ c m. sub c (inr m)) in cc

  put-HasRoot : (c d : Comment) (p : ℕ) → IsMoved c d → HasRoot cs c p → HasRoot (map put cs) d p
  put-HasRoot c d p moved h =
      let kept = put-IsMoved h.root h.stands in
      record {
        root = put h.root;
        stands = In-map put cs h.root h.stands;
        is_parent = kept.keeps_id ∙ h.is_parent;
        is_root = kept.same_parent ∙ h.is_root;
        same_project = kept.same_project ∙ h.same_project ∙ sym moved.same_project;
        same_ticket = kept.same_ticket ∙ h.same_ticket ∙ sym moved.same_ticket;
      }

  pub put_comment-IsValidComments : IsValidComments (put_comment changed cs)
  put_comment-IsValidComments = record {
    unique = rw (comment_ids-put cs (λ c m. m)) v.unique;
    row = λ d n. let (c, m, e) = map-In put cs d n in rw e ((put-IsMoved c m).row);
    reply = λ d n p e.
        let (c, m, same) = map-In put cs d n in
        let moved = put-IsMoved c m in
        rw same
          (put-HasRoot c (put c) p moved (v.reply c m p (sym moved.same_parent ∙ (rw same at e))));
  }
