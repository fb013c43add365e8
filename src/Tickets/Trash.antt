-- ===== src/Tickets/Trash.antt =====
-- app/services/tickets.py: `move_ticket_to_trash` and `restore_ticket_trash_batch`, with the query
-- `trash_batch_rows` of app/repositories/tickets.py for the result. Times count microseconds.
pub mod Hierarchy
pub mod Keeps
pub mod Rows
pub mod Restores
use task_ticket_management_s.Prelude.{
  ℕ, ◌+◌, ◌-◌, ◌*◌, Bool, true, false, Option, none, some, List, [], ◌∷◌, ◌++◌, ◌&&◌, not, ◌==◌,
  leb, is_none, map, select, find_first, count_where, member, option_eq, if◌then◌else◌, Text,
  text_eq,
}
use task_ticket_management_s.Codes.{HistoryEventType}
use task_ticket_management_s.Document.{has_items}
use task_ticket_management_s.Store.{
  Ticket, TicketDeletionBatch, Field, AuditAction, Db, ticket_moved_to_trash, ticket_restored,
  deletion_batch_id, root_ticket_key, operation_id, from_version, to_version,
}
use task_ticket_management_s.Action.{
  Env, auth_error, runtime_error, Action, pure, gets, or_raise, raise_if, modify, ◌>>=◌, ◌>>◌,
  transaction, active_dependency_blocks_trash, ticket_trash_batch_not_found,
  ticket_trash_retention_expired, deleted_parent_blocks_restore, invalid_assignee,
}
use task_ticket_management_s.Projects.Queries.{find_user}
use task_ticket_management_s.Projects.Access.{require_project_user_access}
use task_ticket_management_s.Tickets.Queries.{
  TicketRow, ids, active_ticket_hierarchy, active_dependency_blockers, parent_key_for_ticket,
  deletion_batch, tickets_in_deletion_batch, deleted_parent_outside_batch_exists,
  ineligible_assignee_ticket_keys,
}
use task_ticket_management_s.Tickets.Snapshots.{
  build_ticket_snapshot, build_ticket_change_history, add_history, ticket_audit, flush_ticket,
  set_tickets,
}
use task_ticket_management_s.Tickets.Guards.{
  require_active_project, require_expected_version, get_ticket_row,
}

-- `timedelta(days=1)`
abbrev pub day : ℕ
day = 86_400_000_000

-- The assignments of the loop over the hierarchy in `move_ticket_to_trash`, and the flush.
unfoldable pub trash_ticket : ℕ → ℕ → Ticket → Ticket
trash_ticket now batch t =
    flush_ticket
      (record t { deleted_at = some now; deletion_batch_id = some batch; updated_at = now })

-- The same of `restore_ticket_trash_batch`.
unfoldable pub restore_ticket : ℕ → Ticket → Ticket
restore_ticket now t =
    flush_ticket (record t { deleted_at = none; deletion_batch_id = none; updated_at = now })

-- A change of the tickets with the given ids.
abbrev pub change_tickets : List ℕ → (Ticket → Ticket) → List Ticket → List Ticket
change_tickets is f ts = map (λ t. if member t.id is then f t else t) ts

-- The loop that writes a history row and an audit event for each ticket of the hierarchy.
unfoldable pub record_hierarchy :
    Env
    → ℕ
    → HistoryEventType
    → AuditAction
    → ℕ
    → Text
    → (Ticket → Ticket)
    → Db
    → List Ticket
    → Db
    → Db
unfolding build_ticket_change_history
record_hierarchy env actor kind action batch root_key change before [] db = db
record_hierarchy env actor kind action batch root_key change before (t ∷ ts) db =
    record_hierarchy env actor kind action batch root_key change before ts (
      ticket_audit action actor (change t)
        (deletion_batch_id batch
          ∷ root_ticket_key root_key
          ∷ operation_id env.operation_id
          ∷ from_version t.version
          ∷ to_version (change t).version
          ∷ [])
        (add_history
          (build_ticket_change_history env actor kind
            (build_ticket_snapshot before t (parent_key_for_ticket before.tickets t.project_id t))
            (build_ticket_snapshot db (change t)
              (parent_key_for_ticket before.tickets t.project_id t))
            (Field.deleted_at ∷ []))
          db))

-- A row of `trash_batch_rows` as `_build_trash_batch_view` shows it.
pub record TicketTrashBatchView : Type 0 where
  pub batch : TicketDeletionBatch
  pub root : Ticket
  pub child_count : ℕ
  pub is_expired : Bool
  pub can_restore : Bool

abbrev pub is_root_of : TicketDeletionBatch → Ticket → Bool
is_root_of b t =
    (t.project_id == b.project_id)
    && text_eq t.key b.root_ticket_key
    && option_eq t.deletion_batch_id (some b.id)

abbrev pub build_trash_batch_view :
    List Ticket → ℕ → Bool → TicketDeletionBatch → Option Ticket → Option TicketTrashBatchView
build_trash_batch_view ts now can_restore b none = none
build_trash_batch_view ts now can_restore b (some root) = some (record {
  batch = b;
  root = root;
  child_count =
      count_where (λ t. (t.project_id == b.project_id) && option_eq t.deletion_batch_id (some b.id))
        ts
      - 1;
  is_expired = leb b.purge_after now;
  can_restore = can_restore && not (leb b.purge_after now);
})

-- The row of the batch among those of `trash_batch_rows`, which has one if the root is found.
abbrev pub trash_batch_view : Db → ℕ → Bool → TicketDeletionBatch → Option TicketTrashBatchView
trash_batch_view db now can_restore b =
    build_trash_batch_view db.tickets now can_restore b (find_first (is_root_of b) db.tickets)

unfoldable pub new_batch : Env → ℕ → ℕ → Text → TicketDeletionBatch
new_batch env actor pid root_key = record {
  id = env.new_id;
  project_id = pid;
  root_ticket_key = root_key;
  deleted_by_id = actor;
  deleted_at = env.now;
  purge_after = env.now + env.retention_days * day;
  restored_at = none;
  purged_at = none;
  restored_by_id = none;
}

unfoldable pub trash_body : Env → ℕ → Text → Text → ℕ → Action TicketTrashBatchView
trash_body env actor project_key ticket_key expected_version = do
  project ← require_project_user_access actor project_key
  require_active_project project
  row ← get_ticket_row actor project ticket_key
  require_expected_version row.ticket expected_version
  before ← gets (λ db. db)
  let hierarchy = active_ticket_hierarchy before.tickets project.id row.ticket
  raise_if (has_items (active_dependency_blockers before project.id (ids hierarchy)))
      (auth_error active_dependency_blocks_trash 409)
  let batch = new_batch env actor project.id row.ticket.key
  modify (λ db. record db { batches = db.batches ++ batch ∷ [] })
  modify (λ db.
      set_tickets (change_tickets (ids hierarchy) (trash_ticket env.now env.new_id) db.tickets) db)
  modify (
      record_hierarchy env actor HistoryEventType.deleted ticket_moved_to_trash env.new_id
        row.ticket.key (trash_ticket env.now env.new_id) before hierarchy)
  found ← gets (λ db. trash_batch_view db env.now true batch)
  or_raise found runtime_error

unfoldable pub move_ticket_to_trash : Env → ℕ → Text → Text → ℕ → Action TicketTrashBatchView
move_ticket_to_trash env actor project_key ticket_key expected_version =
    transaction (trash_body env actor project_key ticket_key expected_version)

-- `batch.restored_at = now` and `batch.restored_by_id = actor.id`
abbrev pub close_batch : ℕ → ℕ → ℕ → List TicketDeletionBatch → List TicketDeletionBatch
close_batch i now actor bs =
    map
      (λ b.
        if b.id == i then record b { restored_at = some now; restored_by_id = some actor } else b)
      bs

unfoldable pub restore_body : Env → ℕ → Text → ℕ → ℕ → Action TicketRow
restore_body env actor project_key batch_key expected_version = do
  project ← require_project_user_access actor project_key
  require_active_project project
  found ← gets (λ db. deletion_batch db project.id batch_key)
  batch ← or_raise found (auth_error ticket_trash_batch_not_found 404)
  before ← gets (λ db. db)
  let hierarchy = tickets_in_deletion_batch before.tickets project.id batch.id
  root ←
      or_raise (find_first (λ t. text_eq t.key batch.root_ticket_key) hierarchy)
        (auth_error ticket_trash_batch_not_found 404)
  raise_if (leb batch.purge_after env.now) (auth_error ticket_trash_retention_expired 409)
  require_expected_version root expected_version
  raise_if (deleted_parent_outside_batch_exists before.tickets project.id batch.id)
      (auth_error deleted_parent_blocks_restore 409)
  raise_if (has_items (ineligible_assignee_ticket_keys before project.id (ids hierarchy)))
      (auth_error invalid_assignee 409)
  modify (λ db.
      record (set_tickets (change_tickets (ids hierarchy) (restore_ticket env.now) db.tickets) db) {
        batches = close_batch batch.id env.now actor db.batches;
      })
  modify (
      record_hierarchy env actor HistoryEventType.restored ticket_restored batch.id root.key
        (restore_ticket env.now) before hierarchy)
  get_ticket_row actor project root.key

unfoldable pub restore_ticket_trash_batch : Env → ℕ → Text → ℕ → ℕ → Action TicketRow
restore_ticket_trash_batch env actor project_key batch_key expected_version =
    transaction (restore_body env actor project_key batch_key expected_version)
