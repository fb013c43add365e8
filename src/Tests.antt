-- ===== src/Tests.antt =====
-- A small database on which the services run: one project with an administrator and a participant,
-- an epic and a task below it that the participant is assigned.
pub mod Examples
pub mod Facts
pub mod Runs
pub mod Accounts
pub mod Comments
pub mod Attachments
use task_ticket_management_s.Prelude.{
  ℕ, ◌≡◌, refl, ◌∙◌, Bool, true, false, Option, none, some, List, [], ◌∷◌, inl, inr, In, any,
  is_some, Text, arith,
}
use task_ticket_management_s.Codes.{ProjectRole, TicketType, TicketStatus, Priority, RelationType}
use task_ticket_management_s.Document.{
  Document, Node, Nodes, nil, cons, mention_node, empty_body_document,
}
use task_ticket_management_s.Store.{
  SystemRole, User, Organization, Project, ProjectMember, Ticket, Mention, Db,
}
use task_ticket_management_s.Action.{Env, Result, ok, err}
use task_ticket_management_s.Validity.{
  IsValid, IsValidRow, IsValidTickets, IsValidMembers, HasParent,
}

abbrev pub key_ab : Text
key_ab = 65 ∷ 66 ∷ []

abbrev pub key_ab_1 : Text
key_ab_1 = 65 ∷ 66 ∷ 45 ∷ 49 ∷ []

abbrev pub key_ab_2 : Text
key_ab_2 = 65 ∷ 66 ∷ 45 ∷ 50 ∷ []

abbrev pub sample_env : Env
sample_env = record {
  now = 500;
  retention_days = 30;
  new_id = 9;
  new_member_id = 9;
  operation_id = 77;
  fits = λ d. true;
}

abbrev pub sample_user : ℕ → User
sample_user i = record {
  id = i;
  login_id = [];
  display_name = [];
  system_role = SystemRole.plain_user;
  is_active = true;
  must_change_password = false;
  email = none;
  password_hash = [];
  organization_id = 1;
  deactivated_at = none;
  deactivated_by_id = none;
}

abbrev pub sample_login : Text
sample_login = 97 ∷ 98 ∷ 99 ∷ []

abbrev pub sample_password : Text
sample_password = 112 ∷ []

abbrev pub sample_organization : Organization
sample_organization = record {
  id = 1;
  key = key_ab;
  name = key_ab;
  parent_id = none;
  description = [];
  is_active = true;
}

abbrev pub sample_administrator : User
sample_administrator = record (sample_user 3) {
  login_id = sample_login;
  system_role = SystemRole.system_admin;
  password_hash = sample_password;
}

abbrev pub sample_project : Project
sample_project = record {
  id = 1;
  key = key_ab;
  name = key_ab;
  description = [];
  is_active = true;
  created_by_id = 1;
  next_ticket_number = 3;
}

abbrev pub sample_member : ℕ → ProjectRole → ProjectMember
sample_member i r = record { id = i; project_id = 1; user_id = i; role = r; is_favorite = false }

abbrev pub sample_epic : Ticket
sample_epic = record {
  id = 1;
  project_id = 1;
  number = 1;
  key = key_ab_1;
  type = TicketType.epic;
  title = key_ab;
  labels = [];
  custom_fields = [];
  description_document = empty_body_document;
  body_schema_version = 2;
  status = TicketStatus.todo;
  priority = Priority.minor;
  parent_id = none;
  creator_id = 1;
  assignee_id = none;
  due_date = none;
  actual_started_at = none;
  completed_at = none;
  cancelled_at = none;
  version = 1;
  created_at = 100;
  updated_at = 100;
  deleted_at = none;
  deletion_batch_id = none;
}

abbrev pub sample_task : Ticket
sample_task = record sample_epic {
  id = 2;
  number = 2;
  key = key_ab_2;
  type = TicketType.task;
  status = TicketStatus.in_progress;
  parent_id = some 1;
  assignee_id = some 2;
  actual_started_at = some 200;
}

abbrev pub sample_mention : Mention
sample_mention = record {
  project_id = 1;
  ticket_id = 2;
  comment_id = none;
  target_user_id = 1;
  mentioned_by_id = 2;
  created_at = 100;
  read_at = none;
  removed_at = none;
}

abbrev pub sample_db : Db
sample_db = record {
  users = sample_user 1 ∷ sample_user 2 ∷ sample_administrator ∷ [];
  projects = sample_project ∷ [];
  members = sample_member 1 ProjectRole.admin ∷ sample_member 2 ProjectRole.user ∷ [];
  tickets = sample_epic ∷ sample_task ∷ [];
  relations = [];
  batches = [];
  histories = [];
  comments = [];
  mentions = sample_mention ∷ [];
  attachments = [];
  audits = [];
  organizations = sample_organization ∷ [];
  sessions = [];
  events = [];
}

sample_epic-IsValidRow : IsValidRow sample_db.members sample_epic
sample_epic-IsValidRow = record {
  shape = tt;
  deletion_pair = refl;
  completed = refl;
  cancelled = refl;
  positive = omega arith;
  assignee = λ u e o. cc;
}

pub sample_task-IsValidRow : IsValidRow sample_db.members sample_task
sample_task-IsValidRow = record {
  shape = tt;
  deletion_pair = refl;
  completed = refl;
  cancelled = refl;
  positive = omega arith;
  assignee = λ u e o. let same : 2 ≡ u = cc in rw (← same) refl;
}

sample_task-HasParent : (p : ℕ) → some 1 ≡ some p → HasParent sample_db.tickets sample_task p
sample_task-HasParent p e =
    let same : 1 ≡ p = cc in
    rw (← same) (record {
      parent = sample_epic;
      found = refl;
      same_project = refl;
      above = tt;
      active = λ _. refl;
    })

sample-IsValidTickets : IsValidTickets sample_db.tickets sample_db.members
sample-IsValidTickets = record {
  unique = (refl, (refl, tt));
  row = λ t m. elim m [
    | inl e ↦ rw e sample_epic-IsValidRow
    | inr (inl e) ↦ rw e sample_task-IsValidRow
    | inr (inr empty) ↦ absurd empty
  ];
  parent = λ t m p h. elim m [
    | inl e ↦ let no_parent : none ≡ some p = rw e at h in cc
    | inr (inl e) ↦ rw e (sample_task-HasParent p (rw e at h))
    | inr (inr empty) ↦ absurd empty
  ];
}

sample-IsValidMembers : IsValidMembers sample_db.projects sample_db.members
sample-IsValidMembers = record {
  unique = (refl, (refl, tt));
  administered = λ p m. elim m [ inl e ↦ rw e (omega arith) | inr empty ↦ absurd empty ];
}

pub sample-IsValid : IsValid sample_db
sample-IsValid =
    (sample-IsValidTickets, record { each = λ r m. absurd m; distinct = tt }, sample-IsValidMembers)
