-- ===== src/Codes.antt =====
-- app/domain/codes.py: the persisted codes as data types, with the equality of their values.
use task_ticket_management_s.Prelude.{Bool, true, false, ◌≡◌, arith}

pub data ProjectRole : Type 0 where
  admin user guest : ProjectRole

pub data TicketType : Type 0 where
  epic task subtask : TicketType

pub data TicketStatus : Type 0 where
  todo in_progress done on_hold cancelled : TicketStatus

pub data Priority : Type 0 where
  trivial minor major critical blocker : Priority

pub data RelationType : Type 0 where
  related depends_on : RelationType

pub data HistoryEventType : Type 0 where
  created updated status_changed relation_changed content_changed deleted restored :
      HistoryEventType

abbrev pub role_eq : ProjectRole → ProjectRole → Bool
role_eq ProjectRole.admin ProjectRole.admin = true
role_eq ProjectRole.user ProjectRole.user = true
role_eq ProjectRole.guest ProjectRole.guest = true
role_eq _ _ = false

abbrev pub type_eq : TicketType → TicketType → Bool
type_eq TicketType.epic TicketType.epic = true
type_eq TicketType.task TicketType.task = true
type_eq TicketType.subtask TicketType.subtask = true
type_eq _ _ = false

abbrev pub status_eq : TicketStatus → TicketStatus → Bool
status_eq TicketStatus.todo TicketStatus.todo = true
status_eq TicketStatus.in_progress TicketStatus.in_progress = true
status_eq TicketStatus.done TicketStatus.done = true
status_eq TicketStatus.on_hold TicketStatus.on_hold = true
status_eq TicketStatus.cancelled TicketStatus.cancelled = true
status_eq _ _ = false

abbrev pub priority_eq : Priority → Priority → Bool
priority_eq Priority.trivial Priority.trivial = true
priority_eq Priority.minor Priority.minor = true
priority_eq Priority.major Priority.major = true
priority_eq Priority.critical Priority.critical = true
priority_eq Priority.blocker Priority.blocker = true
priority_eq _ _ = false

abbrev pub relation_eq : RelationType → RelationType → Bool
relation_eq RelationType.related RelationType.related = true
relation_eq RelationType.depends_on RelationType.depends_on = true
relation_eq _ _ = false

pub type_eq→eq : (a b : TicketType) → type_eq a b ≡ true → a ≡ b
type_eq→eq a b h = ground arith

pub role_eq→eq : (a b : ProjectRole) → role_eq a b ≡ true → a ≡ b
role_eq→eq a b h = ground arith

pub status_eq→eq : (a b : TicketStatus) → status_eq a b ≡ true → a ≡ b
status_eq→eq a b h = ground arith

pub relation_eq→eq : (a b : RelationType) → relation_eq a b ≡ true → a ≡ b
relation_eq→eq a b h = ground arith
