-- ===== src/Comments/Keeps.antt =====
-- The comment services keep the comments' table valid, and the other tables too.
use task_ticket_management_s.Prelude.{
  ℕ, ◌≡◌, refl, true, false, Option, some, List, [], ◌∷◌, ◌++◌, Text, arith, member, Bool,
}
use task_ticket_management_s.Document.{Document}
use task_ticket_management_s.Store.{
  Comment, Ticket, TicketRelation, Project, ProjectMember, User, Organization, UserSession, Db,
}
use task_ticket_management_s.Action.{Env, Action, pure}
use task_ticket_management_s.Action.Triple.{
  Returns, returned, Returns-bind, Returns-pure, Returns-raise_if, Returns-modify,
  Returns-modify_last, transaction_keeps,
}
use task_ticket_management_s.Action.Frame.{Keeps, keeps_rules, Returns-Keeps}
use task_ticket_management_s.Projects.Access.{
  ProjectView, is_system_administrator, require_project_member,
}
use task_ticket_management_s.Projects.Access.Rules.{Returns-access}
use task_ticket_management_s.Tickets.Guards.{get_ticket_row}
use task_ticket_management_s.Tickets.Guards.Rules.{Returns-row}
use task_ticket_management_s.Comments.{
  CommentCreate, CommentUpdate, new_comment, record_comment, create_comment_body, create_comment,
  put_comment, edit_comment, write_comment, unless_same, update_comment_body, update_comment,
  erase_comment, delete_comment_body, delete_comment,
}
use task_ticket_management_s.Comments.Rows.{CommentRow, CommentView}
use task_ticket_management_s.Untouched.{when-Keeps}
use task_ticket_management_s.Comments.Rules.{
  IsActiveComment, IsReplyParent, Returns-comment, Returns-reply_parent, Returns-body,
  validate_comment_body-Keeps, get_active_comment_row-Keeps, require_reply_parent-Keeps,
}
use task_ticket_management_s.Validity.Comments.{
  HasRoot, IsValidComments, comment_ids, append-IsValidComments, put_comment-IsValidComments,
}

abbrev Valid : Db → Type 0
Valid db = IsValidComments db.comments

reply_parent-HasRoot :
    (cs : List Comment) (pid tid : ℕ) (c : Comment)
    → IsReplyParent cs pid tid c.parent_comment_id
    → c.project_id ≡ pid
    → c.ticket_id ≡ tid
    → (p : ℕ) → c.parent_comment_id ≡ some p
    → HasRoot cs c p
reply_parent-HasRoot cs pid tid c h project ticket p e =
    let (root, here, top) = rw e at h in
    record {
      root = root;
      stands = here.stands;
      is_parent = here.has_id;
      is_root = top;
      same_project = rw (here.of_project, project);
      same_ticket = rw (here.of_ticket, ticket);
    }

created-IsValidComments :
    (env : Env) (actor pid tid : ℕ) (parent : Option ℕ) (document : Document) (cs : List Comment)
    → IsValidComments cs
    → member env.new_id (comment_ids cs) ≡ false
    → IsReplyParent cs pid tid parent
    → IsValidComments (cs ++ new_comment env actor pid tid parent document ∷ [])
unfolding new_comment
created-IsValidComments env actor pid tid parent document cs v fresh here =
    append-IsValidComments cs (new_comment env actor pid tid parent document) v fresh
      (record { positive = omega arith; deletion_pair = refl; schema = refl })
      (reply_parent-HasRoot cs pid tid _ here refl refl)

module _ (cs : List Comment) (pid tid cid now : ℕ) (c : Comment) (v : IsValidComments cs)
    (here : IsActiveComment cs pid tid cid c) where
  edited-IsValidComments : (d : Document) → IsValidComments (put_comment (edit_comment now d c) cs)
  unfolding edit_comment
  edited-IsValidComments d = put_comment-IsValidComments cs c (edit_comment now d c) v (record {
    stands = here.stands;
    keeps_id = refl;
    same_project = refl;
    same_ticket = refl;
    same_parent = refl;
    row = record {
      positive = omega arith;
      deletion_pair = (v.row c here.stands).deletion_pair;
      schema = refl;
    };
  })

  erased-IsValidComments :
      (actor : ℕ) → IsValidComments (put_comment (erase_comment now actor c) cs)
  unfolding erase_comment
  erased-IsValidComments actor =
      put_comment-IsValidComments cs c (erase_comment now actor c) v (record {
        stands = here.stands;
        keeps_id = refl;
        same_project = refl;
        same_ticket = refl;
        same_parent = refl;
        row = record {
          positive = omega arith;
          deletion_pair = refl;
          schema = (v.row c here.stands).schema;
        };
      })

unless_same-Returns :
    (Q : CommentRow → Db → Type 0) (b : Bool) (row : CommentRow) (write : Action CommentRow)
    (db : Db)
    → Q row db
    → Returns Q (write db)
    → Returns Q (unless_same b row write db)
unfolding unless_same pure
unless_same-Returns Q true row write db h k = returned row db h
unless_same-Returns Q false row write db h k = k

module _ (env : Env) (actor : ℕ) (project_key ticket_key : Text) (db : Db)
    (valid : IsValidComments db.comments) where
  create_comment_body-Returns :
      (payload : CommentCreate)
      → member env.new_id (comment_ids db.comments) ≡ false
      → Returns
          (λ (_ : CommentView) d. Valid d)
          (create_comment_body env actor project_key ticket_key payload db)
  unfolding create_comment_body record_comment
  create_comment_body-Returns payload fresh = Returns-access _ _ _ _ db _ _ λ p xs access.
      Returns-raise_if _ _ _ _ _ λ _. Returns-row _ _ _ _ _ _ λ row at_row.
        Returns-reply_parent _ _ _ _ _ _ _ λ here. Returns-body _ _ _ _ _ _ _ λ document.
          Returns-modify _ _ _ _ (
            Returns-modify _ _ _ _ (
              Returns-bind _ (λ _ d. Valid d) _ _ _
                (Returns-Keeps Valid _ _ (get_active_comment_row-Keeps Valid _ _ _ _) (
                  created-IsValidComments env actor p.id row.ticket.id payload.parent_comment_id
                    document db.comments valid fresh here))
                (λ r d h. Returns-pure _ _ d h)))

  -- `create_comment` keeps the comments valid.
  pub create_comment-IsValidComments :
      (payload : CommentCreate)
      → member env.new_id (comment_ids db.comments) ≡ false
      → Valid (create_comment env actor project_key ticket_key payload db).1
  unfolding create_comment
  create_comment-IsValidComments payload fresh =
      transaction_keeps _ Valid _ db valid (λ _ _ h. h) (create_comment_body-Returns payload fresh)

  update_comment_body-Returns :
      (cid : ℕ) (payload : CommentUpdate)
      → Returns
          (λ (_ : CommentView) d. Valid d)
          (update_comment_body env actor project_key ticket_key cid payload db)
  unfolding update_comment_body write_comment record_comment
  update_comment_body-Returns cid payload = Returns-access _ _ _ _ db _ _ λ p xs access.
      Returns-raise_if _ _ _ _ _ λ _. Returns-row _ _ _ _ _ _ λ row at_row.
        Returns-comment _ _ _ _ _ _ _ λ current here. Returns-raise_if _ _ _ _ _ λ _.
          Returns-body _ _ _ _ _ _ _ λ document.
            Returns-bind _ (λ _ d. Valid d) _ _ _
              (unless_same-Returns _ _ _ _ _ valid (
                Returns-modify _ _ _ _ (
                  Returns-modify _ _ _ _ (
                    Returns-Keeps Valid _ _ (get_active_comment_row-Keeps Valid _ _ _ _) (
                      edited-IsValidComments db.comments p.id row.ticket.id cid env.now
                        current.comment valid here document)))))
              (λ r d h. Returns-pure _ _ d h)

  pub update_comment-IsValidComments :
      (cid : ℕ) (payload : CommentUpdate)
      → Valid (update_comment env actor project_key ticket_key cid payload db).1
  unfolding update_comment
  update_comment-IsValidComments cid payload =
      transaction_keeps _ Valid _ db valid (λ _ _ h. h) (update_comment_body-Returns cid payload)

  delete_comment_body-Returns :
      (cid expected : ℕ)
      → Returns
          (λ (_ : Unit {0}) d. Valid d)
          (delete_comment_body env actor project_key ticket_key cid expected db)
  unfolding delete_comment_body record_comment
  delete_comment_body-Returns cid expected = Returns-access _ _ _ _ db _ _ λ p xs access.
      Returns-raise_if _ _ _ _ _ λ _. Returns-row _ _ _ _ _ _ λ row at_row.
        Returns-comment _ _ _ _ _ _ _ λ current here. Returns-raise_if _ _ _ _ _ λ _.
          Returns-modify _ _ _ _ (
            Returns-modify_last _ _ _ (
              erased-IsValidComments db.comments p.id row.ticket.id cid env.now current.comment
                valid here actor))

  pub delete_comment-IsValidComments :
      (cid expected : ℕ) → Valid (delete_comment env actor project_key ticket_key cid expected db).1
  unfolding delete_comment
  delete_comment-IsValidComments cid expected =
      transaction_keeps _ Valid _ db valid (λ _ _ h. h) (delete_comment_body-Returns cid expected)

-- The comment services write no other table that a predicate on those below can see.
abbrev pub Tables : Type 1
Tables =
    List Ticket
    → List TicketRelation
    → List Project
    → List ProjectMember
    → List User
    → List Organization
    → List UserSession
    → Type 0

abbrev pub Others : Tables → Db → Type 0
Others V db = V db.tickets db.relations db.projects db.members db.users db.organizations db.sessions

unless_same-Keeps :
    (P : Db → Type 0) (b : Bool) (row : CommentRow) (write : Action CommentRow)
    → Keeps P write
    → Keeps P (unless_same b row write)
unfolding unless_same pure
unless_same-Keeps P true row write k = record { at = λ db h. h }
unless_same-Keeps P false row write k = record { at = k.at }

module _ (V : Tables) where
  is_system_administrator-Keeps : (actor : ℕ) → Keeps (Others V) (is_system_administrator actor)
  unfolding is_system_administrator
  is_system_administrator-Keeps actor = search keeps_rules depth 40 fits 4000

  require_project_member-Keeps :
      (m w : Bool) (actor : ℕ) (key : Text)
      → Keeps (Others V) (require_project_member m w actor key)
  unfolding require_project_member
  require_project_member-Keeps m w actor key =
      search (keeps_rules, is_system_administrator-Keeps, when-Keeps) depth 40 fits 4000

  get_ticket_row-Keeps :
      (actor : ℕ) (p : ProjectView) (key : Text) → Keeps (Others V) (get_ticket_row actor p key)
  unfolding get_ticket_row
  get_ticket_row-Keeps actor p key = search keeps_rules depth 40 fits 4000

  module _ (env : Env) (actor : ℕ) (project_key ticket_key : Text) where
    pub create_comment-Keeps :
        (payload : CommentCreate)
        → Keeps (Others V) (create_comment env actor project_key ticket_key payload)
    unfolding create_comment create_comment_body record_comment
    create_comment-Keeps payload =
        search
          (
            keeps_rules, require_project_member-Keeps, get_ticket_row-Keeps,
            get_active_comment_row-Keeps, require_reply_parent-Keeps, validate_comment_body-Keeps,
          )
          depth 40 fits 4000

    pub update_comment-Keeps :
        (cid : ℕ) (payload : CommentUpdate)
        → Keeps (Others V) (update_comment env actor project_key ticket_key cid payload)
    unfolding update_comment update_comment_body write_comment record_comment
    update_comment-Keeps cid payload =
        search
          (
            keeps_rules, require_project_member-Keeps, get_ticket_row-Keeps,
            get_active_comment_row-Keeps, validate_comment_body-Keeps, unless_same-Keeps,
          )
          depth 40 fits 4000

    pub delete_comment-Keeps :
        (cid expected : ℕ)
        → Keeps (Others V) (delete_comment env actor project_key ticket_key cid expected)
    unfolding delete_comment delete_comment_body record_comment
    delete_comment-Keeps cid expected =
        search
          (
            keeps_rules, require_project_member-Keeps, get_ticket_row-Keeps,
            get_active_comment_row-Keeps,
          )
          depth 40 fits 4000
