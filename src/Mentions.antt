-- ===== src/Mentions.antt =====
-- app/services/mentions.py with `eligible_users` and `source_mentions` of app/repositories/mentions.py,
-- and the check of a document's images against a ticket's attachments.
pub mod Rules
pub mod Synchronized
use task_ticket_management_s.Prelude.{
  ℕ, Bool, Option, none, some, List, [], ◌∷◌, ◌++◌, ◌&&◌, not, ◌==◌, leb, is_none, is_some, map,
  select, any, member, option_eq, order_by, if◌then◌else◌, Text,
}
use task_ticket_management_s.Document.{
  Document, iter_attachment_ids, iter_mention_nodes, relabel_mentions, has_items,
}
use task_ticket_management_s.Store.{User, Ticket, Mention, Db}
use task_ticket_management_s.Action.{
  Env, auth_error, Action, pure, gets, raise_if, ◌>>=◌, ◌>>◌, invalid_mention_target,
  invalid_mention_document, invalid_description_attachment,
}
use task_ticket_management_s.Projects.Queries.{find_user, is_membership}

-- A member of the project, of any role, who is an active user: a row of `eligible_users`.
abbrev pub is_eligible : Db → ℕ → ℕ → Bool
is_eligible db pid uid =
    any (is_membership pid uid) db.members && any (λ u. (u.id == uid) && u.is_active) db.users

abbrev pub mentioned_ids : Document → List ℕ
mentioned_ids d = map (λ m. m.0) (iter_mention_nodes d)

-- `requested_ids != set(users_by_id)`: some mentioned user is not eligible.
abbrev pub has_ineligible : Db → ℕ → Document → Bool
has_ineligible db pid d = any (λ u. not (is_eligible db pid u)) (mentioned_ids d)

abbrev pub name_or : Text → Option User → Text
name_or t none = t
name_or t (some u) = u.display_name

-- The document with the current display names; the labels are set in place.
unfoldable pub validate_mentions : Env → ℕ → Document → Action Document
validate_mentions env pid document = do
  db ← gets (λ db. db)
  raise_if (has_ineligible db pid document) (auth_error invalid_mention_target 422)
  let relabelled = relabel_mentions (λ u. name_or [] (find_user u db.users)) document
  raise_if (has_items (iter_mention_nodes document) && not (env.fits relabelled))
      (auth_error invalid_mention_document 422)
  pure relabelled

-- The distinct members of a list, as a Python set has them.
abbrev pub distinct : List ℕ → List ℕ
distinct [] = []
distinct (x ∷ xs) = if member x xs then distinct xs else x ∷ distinct xs

-- `source_mentions`
abbrev pub of_source : ℕ → Option ℕ → Mention → Bool
of_source tid comment m = (m.ticket_id == tid) && option_eq m.comment_id comment

-- What becomes of a mention that is there: removed, brought back, or left with its read state. The
-- unique indexes admit one mention of a source by user, which `existing_by_user` finds.
unfoldable pub synchronize_row : ℕ → ℕ → List ℕ → Mention → Mention
synchronize_row now actor requested m =
    if not (member m.target_user_id requested)
    then (if is_none m.removed_at then record m { removed_at = some now } else m)
    else if is_some m.removed_at
    then record m { removed_at = none; read_at = none; created_at = now; mentioned_by_id = actor }
    else m

abbrev pub new_mention : ℕ → ℕ → Ticket → Option ℕ → ℕ → Mention
new_mention now actor t comment uid = record {
  project_id = t.project_id;
  ticket_id = t.id;
  comment_id = comment;
  target_user_id = uid;
  mentioned_by_id = actor;
  created_at = now;
  read_at = none;
  removed_at = none;
}

-- The requested users of whom the source has no mention, in the order of their ids.
abbrev pub newly_mentioned : List Mention → ℕ → Option ℕ → List ℕ → List ℕ
newly_mentioned ms tid comment requested =
    select (λ u. not (any (λ m. of_source tid comment m && (m.target_user_id == u)) ms))
      (order_by leb (distinct requested))

unfoldable pub synchronize_mentions :
    ℕ → ℕ → Ticket → Document → Option ℕ → List Mention → List Mention
unfolding synchronize_row
synchronize_mentions now actor t document comment ms =
    map
      (λ m.
        if of_source t.id comment m
        then synchronize_row now actor (mentioned_ids document) m
        else m)
      ms
    ++ map (new_mention now actor t comment)
        (newly_mentioned ms t.id comment (mentioned_ids document))

-- `available_attachment_ids` has the id.
abbrev pub is_available_attachment : Db → ℕ → ℕ → ℕ → Bool
is_available_attachment db pid tid i =
    any (λ a. (a.project_id == pid) && (a.ticket_id == tid) && (a.id == i) && is_none a.deleted_at)
      db.attachments

-- `requested_attachment_ids != available_attachment_ids`, where the latter is a subset.
abbrev pub has_unavailable : Db → ℕ → Option ℕ → List ℕ → Bool
has_unavailable db pid none is = has_items is
has_unavailable db pid (some tid) is = any (λ i. not (is_available_attachment db pid tid i)) is

-- `_require_available_document_attachments` of app/services/tickets.py
unfoldable pub require_available_document_attachments : ℕ → Option ℕ → Document → Action (Unit {0})
require_available_document_attachments pid tid document = do
  db ← gets (λ db. db)
  raise_if (has_unavailable db pid tid (iter_attachment_ids document))
      (auth_error invalid_description_attachment 400)
