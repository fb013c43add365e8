-- ===== src/Validity.antt =====
-- What the tables of app/models/work.py satisfy: the CHECK and UNIQUE constraints that the services
-- rely on, and the rules across rows that no constraint states and only the services keep.
pub mod Ids
pub mod Update
pub mod Append
pub mod Relations
pub mod Members
pub mod Comments
use task_ticket_management_s.Prelude.{
  ℕ, ◌<◌, ◌≡◌, ◌≢◌, Bool, true, false, Option, none, some, List, [], ◌∷◌, map, ◌&&◌, ◌==◌, is_some,
  any, In, count_where, member,
}
use task_ticket_management_s.Codes.{TicketType, TicketStatus, RelationType, relation_eq, status_eq}
use task_ticket_management_s.Store.{Project, ProjectMember, Ticket, TicketRelation, Db}
use task_ticket_management_s.Projects.Queries.{is_open, project_administrator_count}
use task_ticket_management_s.Tickets.Queries.{find_ticket, ids, is_assignable}
use Ids.{NoDup}

-- The CHECK `parent_shape` of `tickets`.
abbrev pub HasParentShape : TicketType → Option ℕ → Type 0
HasParentShape TicketType.epic (some _) = ⊥
HasParentShape TicketType.subtask none = ⊥
HasParentShape _ _ = Unit

-- Epics stand above tasks, and tasks above subtasks.
abbrev pub StandsBelow : TicketType → TicketType → Type 0
StandsBelow TicketType.task TicketType.epic = Unit
StandsBelow TicketType.subtask TicketType.task = Unit
StandsBelow _ _ = ⊥

-- The parent is a row of the same project (`fk_tickets_project_parent`), of the type above, and
-- outside the trash if its child is.
pub record HasParent (ts : List Ticket) (t : Ticket) (p : ℕ) : Type 0 where
  pub parent : Ticket
  pub found : find_ticket p ts ≡ some parent
  pub same_project : parent.project_id ≡ t.project_id
  pub above : StandsBelow t.type parent.type
  pub active : t.deleted_at ≡ none → parent.deleted_at ≡ none

-- One row of `tickets` by itself, among the memberships `ms`: the CHECKs `parent_shape`,
-- `deletion_pair` and `positive_number_version`, the time stamps that go with the status, and an
-- assignee who takes part in the project while the ticket is open.
pub record IsValidRow (ms : List ProjectMember) (t : Ticket) : Type 0 where
  pub shape : HasParentShape t.type t.parent_id
  pub deletion_pair : is_some t.deleted_at ≡ is_some t.deletion_batch_id
  pub completed : is_some t.completed_at ≡ status_eq t.status TicketStatus.done
  pub cancelled : is_some t.cancelled_at ≡ status_eq t.status TicketStatus.cancelled
  pub positive : 0 < t.version
  pub assignee :
      (u : ℕ)
      → t.assignee_id ≡ some u
      → is_open t ≡ true
      → any (is_assignable t.project_id u) ms ≡ true

-- The CHECKs `different_endpoints`, `canonical_related_order` and `dependency_shape`.
pub record IsValidRelation (r : TicketRelation) : Type 0 where
  pub different : r.source_ticket_id ≢ r.target_ticket_id
  pub canonical : r.relation_type ≡ RelationType.related → r.source_ticket_id < r.target_ticket_id
  pub kind : is_some r.dependency_kind ≡ relation_eq r.relation_type RelationType.depends_on

abbrev pub same_endpoints : TicketRelation → TicketRelation → Bool
same_endpoints r s =
    (r.project_id == s.project_id)
    && (r.source_ticket_id == s.source_ticket_id)
    && (r.target_ticket_id == s.target_ticket_id)
    && relation_eq r.relation_type s.relation_type

-- `uq_ticket_relations_endpoints_type`
abbrev pub AreDistinct : List TicketRelation → Type 0
AreDistinct [] = Unit
AreDistinct (r ∷ rs) = (any (same_endpoints r) rs ≡ false) × AreDistinct rs

pub record IsValidTickets (ts : List Ticket) (ms : List ProjectMember) : Type 0 where
  pub unique : NoDup (ids ts)
  pub row : (t : Ticket) → In t ts → IsValidRow ms t
  pub parent : (t : Ticket) → In t ts → (p : ℕ) → t.parent_id ≡ some p → HasParent ts t p

pub record IsValidRelations (rs : List TicketRelation) : Type 0 where
  pub each : (r : TicketRelation) → In r rs → IsValidRelation r
  pub distinct : AreDistinct rs

-- Every project has an administrator, and the ids of memberships are unique.
pub record IsValidMembers (ps : List Project) (ms : List ProjectMember) : Type 0 where
  pub unique : NoDup (map (λ m. m.id) ms)
  pub administered : (p : Project) → In p ps → 0 < project_administrator_count ms p.id

abbrev pub IsValid : Db → Type 0
IsValid db =
    IsValidTickets db.tickets db.members
    × IsValidRelations db.relations
    × IsValidMembers db.projects db.members
