-- ===== src/Tickets/Queries.antt =====
-- app/repositories/tickets.py: the queries of the ticket services, over the tables.
use task_ticket_management_s.Prelude.{
  ℕ, Bool, true, false, Option, none, some, List, [], ◌∷◌, ◌&&◌, ◌||◌, not, ◌==◌, ltb, leb, is_some,
  is_none, select, find_first, any, count_where, order_by, member, map, option_eq, Text, text_eq,
}
use task_ticket_management_s.Codes.{
  ProjectRole, TicketType, TicketStatus, RelationType, role_eq, type_eq, status_eq, relation_eq,
}
use task_ticket_management_s.Store.{
  User, ProjectMember, Ticket, TicketRelation, TicketDeletionBatch, RelationSnapshot, Db,
}
use task_ticket_management_s.Projects.Queries.{find_user, find_membership, is_membership}

abbrev pub find_ticket : ℕ → List Ticket → Option Ticket
find_ticket i ts = find_first (λ t. t.id == i) ts

-- `project_scope`: whether the project is there and the actor takes part in it, or overrides.
abbrev pub project_scope : Db → ℕ → ℕ → Bool → Bool
project_scope db pid actor override =
    any (λ p. p.id == pid) db.projects
    && (override || is_some (find_membership pid actor db.members))

-- `ticket_query`: the conditions of its WHERE and of its inner joins.
abbrev pub ticket_query : Db → ℕ → ℕ → Bool → Ticket → Bool
ticket_query db pid actor override t =
    is_none t.deleted_at
    && (t.project_id == pid)
    && project_scope db pid actor override
    && is_some (find_user t.creator_id db.users)

-- A row of `_ticket_select`: the ticket, and the key of its parent by the outer join.
pub record TicketRow : Type 0 where
  pub ticket : Ticket
  pub parent_key : Option Text

abbrev pub key_of : Option Ticket → Option Text
key_of none = none
key_of (some t) = some t.key

-- `(parent.id == Ticket.parent_id) & (parent.project_id == …) & parent.deleted_at.is_(None)`
abbrev pub joined_parent : List Ticket → Ticket → Option Ticket
joined_parent ts t =
    find_first
      (λ p.
        option_eq t.parent_id (some p.id) && (p.project_id == t.project_id) && is_none p.deleted_at)
      ts

abbrev pub to_row : List Ticket → Option Ticket → Option TicketRow
to_row ts none = none
to_row ts (some t) = some (record { ticket = t; parent_key = key_of (joined_parent ts t) })

abbrev pub ticket_row : Db → ℕ → ℕ → Text → Bool → Option TicketRow
ticket_row db pid actor key override =
    to_row db.tickets
      (find_first (λ t. ticket_query db pid actor override t && text_eq t.key key) db.tickets)

abbrev pub ticket_row_by_id : Db → ℕ → ℕ → ℕ → Bool → Option TicketRow
ticket_row_by_id db pid actor i override =
    to_row db.tickets
      (find_first (λ t. ticket_query db pid actor override t && (t.id == i)) db.tickets)

-- ORDER BY Ticket.number, Ticket.id
abbrev pub by_number : Ticket → Ticket → Bool
by_number t u = ltb t.number u.number || ((t.number == u.number) && leb t.id u.id)

abbrev pub ids : List Ticket → List ℕ
ids ts = map (λ t. t.id) ts

abbrev pub is_child_of : ℕ → Ticket → Bool
is_child_of i t = option_eq t.parent_id (some i)

abbrev pub parent_in : List ℕ → Ticket → Bool
parent_in is t = any (λ i. is_child_of i t) is

-- The subquery `task_ids` of `active_ticket_hierarchy`.
abbrev pub active_task_ids : List Ticket → ℕ → ℕ → List ℕ
active_task_ids ts pid root = ids (
    select
      (λ t.
        (t.project_id == pid)
        && is_child_of root t
        && type_eq t.type TicketType.task
        && is_none t.deleted_at)
      ts)

abbrev pub hierarchy_condition : List Ticket → ℕ → ℕ → TicketType → Ticket → Bool
hierarchy_condition ts pid root TicketType.task t = (t.id == root) || is_child_of root t
hierarchy_condition ts pid root TicketType.epic t =
    (t.id == root) || is_child_of root t || parent_in (active_task_ids ts pid root) t
hierarchy_condition ts pid root TicketType.subtask t = t.id == root

abbrev pub in_active_hierarchy : List Ticket → ℕ → Ticket → Ticket → Bool
in_active_hierarchy ts pid root t =
    (t.project_id == pid) && is_none t.deleted_at && hierarchy_condition ts pid root.id root.type t

abbrev pub active_ticket_hierarchy : List Ticket → ℕ → Ticket → List Ticket
active_ticket_hierarchy ts pid root =
    order_by by_number (select (in_active_hierarchy ts pid root) ts)

-- An active ticket with the id whose status is not DONE.
abbrev pub is_unfinished_target : ℕ → ℕ → Ticket → Bool
is_unfinished_target pid i t =
    (t.project_id == pid)
    && (t.id == i)
    && is_none t.deleted_at
    && not (status_eq t.status TicketStatus.done)

-- A row of `active_dependency_blockers`: a relation from an active ticket outside of the given ids
-- to an unfinished one of them. The result is empty exactly if no relation is such a row.
abbrev pub blocks_deletion : List Ticket → ℕ → List ℕ → TicketRelation → Bool
blocks_deletion ts pid deleted r =
    (r.project_id == pid)
    && relation_eq r.relation_type RelationType.depends_on
    && member r.target_ticket_id deleted
    && not (member r.source_ticket_id deleted)
    && any (λ t. (t.project_id == pid) && (t.id == r.source_ticket_id) && is_none t.deleted_at) ts
    && any (is_unfinished_target pid r.target_ticket_id) ts

abbrev pub active_dependency_blockers : Db → ℕ → List ℕ → List TicketRelation
active_dependency_blockers db pid deleted =
    select (blocks_deletion db.tickets pid deleted) db.relations

abbrev pub parent_key_for_ticket : List Ticket → ℕ → Ticket → Option Text
parent_key_for_ticket ts pid t =
    key_of (find_first (λ p. (p.project_id == pid) && option_eq t.parent_id (some p.id)) ts)

abbrev pub deletion_batch : Db → ℕ → ℕ → Option TicketDeletionBatch
deletion_batch db pid i =
    find_first
      (λ b. (b.id == i) && (b.project_id == pid) && is_none b.restored_at && is_none b.purged_at)
      db.batches

abbrev pub in_batch : ℕ → ℕ → Ticket → Bool
in_batch pid batch t =
    (t.project_id == pid) && option_eq t.deletion_batch_id (some batch) && is_some t.deleted_at

abbrev pub tickets_in_deletion_batch : List Ticket → ℕ → ℕ → List Ticket
tickets_in_deletion_batch ts pid batch = order_by by_number (select (in_batch pid batch) ts)

-- SQL's `x != batch`, which is not true of NULL.
abbrev pub is_other_batch : ℕ → Option ℕ → Bool
is_other_batch batch none = false
is_other_batch batch (some b) = not (b == batch)

abbrev pub deleted_outside : List Ticket → ℕ → Ticket → Bool
deleted_outside ts batch t =
    any
      (λ p.
        (p.project_id == t.project_id)
        && option_eq t.parent_id (some p.id)
        && is_some p.deleted_at
        && is_other_batch batch p.deletion_batch_id)
      ts

abbrev pub deleted_parent_outside_batch_exists : List Ticket → ℕ → ℕ → Bool
deleted_parent_outside_batch_exists ts pid batch =
    any
      (λ t.
        (t.project_id == pid)
        && option_eq t.deletion_batch_id (some batch)
        && deleted_outside ts batch t)
      ts

abbrev pub parent_ticket : Db → ℕ → ℕ → Text → Bool → Option Ticket
parent_ticket db pid actor key override =
    find_first
      (λ t.
        (t.project_id == pid)
        && project_scope db pid actor override
        && text_eq t.key key
        && is_none t.deleted_at)
      db.tickets

abbrev pub is_active_user : List User → ℕ → Bool
is_active_user us uid = any (λ u. (u.id == uid) && u.is_active) us

-- A membership of the project that is not a guest's.
abbrev pub is_assignable : ℕ → ℕ → ProjectMember → Bool
is_assignable pid uid m = is_membership pid uid m && not (role_eq m.role ProjectRole.guest)

abbrev pub assignee_is_active_member : Db → ℕ → ℕ → Bool
assignee_is_active_member db pid uid =
    any (λ m. is_assignable pid uid m && is_active_user db.users uid) db.members

abbrev pub role_is_guest : Option ProjectMember → Bool
role_is_guest none = true
role_is_guest (some m) = role_eq m.role ProjectRole.guest

-- `membership.id IS NULL OR membership.role = GUEST OR assignee.is_active IS NOT TRUE`
abbrev pub has_ineligible_assignee : Db → ℕ → Ticket → Bool
has_ineligible_assignee db pid t = elim t.assignee_id [
  | none ↦ false
  | some uid ↦
      role_is_guest (find_membership t.project_id uid db.members)
      || not (is_active_user db.users uid)
]

abbrev pub ineligible_assignee_ticket_keys : Db → ℕ → List ℕ → List Text
ineligible_assignee_ticket_keys db pid is =
    map (λ t. t.key)
      (order_by by_number (
        select (λ t. (t.project_id == pid) && member t.id is && has_ineligible_assignee db pid t)
          db.tickets))

-- The key of a ticket by its id and project, as the inner joins of `relation_rows` have it.
abbrev pub ticket_key_by_id : List Ticket → ℕ → ℕ → Option Text
ticket_key_by_id ts pid i = key_of (find_first (λ t. (t.project_id == pid) && (t.id == i)) ts)

abbrev pub touches : ℕ → TicketRelation → Bool
touches i r = (r.source_ticket_id == i) || (r.target_ticket_id == i)

abbrev pub snapshot_with : TicketRelation → Option Text → Option Text → List RelationSnapshot
snapshot_with r (some s) (some t) =
    record {
      source_ticket_key = s;
      target_ticket_key = t;
      relation_type = r.relation_type;
      dependency_kind = r.dependency_kind;
      lag_days = r.lag_days;
    }
    ∷ []
snapshot_with r _ _ = []

abbrev pub by_relation_id : TicketRelation → TicketRelation → Bool
by_relation_id r s = leb r.id s.id

abbrev pub relation_exists : Db → ℕ → ℕ → ℕ → ℕ → RelationType → Bool → Bool
relation_exists db pid actor source target kind override =
    any
      (λ r.
        (r.project_id == pid)
        && project_scope db pid actor override
        && (r.source_ticket_id == source)
        && (r.target_ticket_id == target)
        && relation_eq r.relation_type kind)
      db.relations

abbrev pub ticket_relation : Db → ℕ → ℕ → ℕ → ℕ → Bool → Option TicketRelation
ticket_relation db pid actor tid rid override =
    find_first
      (λ r.
        (r.id == rid)
        && (r.project_id == pid)
        && project_scope db pid actor override
        && touches tid r)
      db.relations

-- A dependency of the ticket on one that is not DONE; the join's target is unique by its id.
abbrev pub is_incomplete_dependency : List Ticket → ℕ → ℕ → TicketRelation → Bool
is_incomplete_dependency ts pid tid r =
    (r.project_id == pid)
    && (r.source_ticket_id == tid)
    && relation_eq r.relation_type RelationType.depends_on
    && any
        (λ t.
          (t.project_id == pid)
          && (t.id == r.target_ticket_id)
          && not (status_eq t.status TicketStatus.done))
        ts

abbrev pub incomplete_dependency_count : Db → ℕ → ℕ → ℕ
incomplete_dependency_count db pid tid =
    count_where (is_incomplete_dependency db.tickets pid tid) db.relations

abbrev pub incomplete_child_count : List Ticket → ℕ → ℕ → ℕ
incomplete_child_count ts pid epic =
    count_where
      (λ t.
        (t.project_id == pid)
        && is_child_of epic t
        && type_eq t.type TicketType.task
        && not (status_eq t.status TicketStatus.done)
        && is_none t.deleted_at)
      ts
