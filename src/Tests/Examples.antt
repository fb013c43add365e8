-- ===== src/Tests/Examples.antt =====
-- The theorems on whole services at the sample database.
use task_ticket_management_s.Prelude.{◌≡◌, refl, true, false, none, some, [], inl, inr}
use task_ticket_management_s.Codes.{ProjectRole, TicketType, TicketStatus, Priority, RelationType}
use task_ticket_management_s.Document.{
  Document, nil, cons, mention_node, image_node, empty_body_document,
}
use task_ticket_management_s.Projects.Settings.{ProjectCreate, create_project}
use task_ticket_management_s.Projects.Settings.Keeps.{create_project-IsValid}
use task_ticket_management_s.Projects.Members.{update_project_member_role, remove_project_member}
use task_ticket_management_s.Projects.Members.Keeps.{
  update_project_member_role-IsValid, remove_project_member-IsValid,
}
use task_ticket_management_s.Tickets.Queries.{in_active_hierarchy}
use task_ticket_management_s.Tickets.Create.{TicketCreate, validate_parent_shape, create_ticket}
use task_ticket_management_s.Tickets.Create.Keeps.{create_ticket-IsValid}
use task_ticket_management_s.Tickets.Update.{TicketUpdate, update_ticket}
use task_ticket_management_s.Tickets.Update.Keeps.{update_ticket-IsValid}
use task_ticket_management_s.Tickets.Transition.{TicketTransition, transition_ticket}
use task_ticket_management_s.Tickets.Transition.Keeps.{transition_ticket-IsValid}
use task_ticket_management_s.Tickets.Relations.{TicketRelationCreate, create_ticket_relation}
use task_ticket_management_s.Tickets.Relations.Keeps.{create_ticket_relation-IsValid}
use task_ticket_management_s.Tickets.Trash.{move_ticket_to_trash, restore_ticket_trash_batch}
use task_ticket_management_s.Tickets.Trash.Keeps.{move_ticket_to_trash-IsValid}
use task_ticket_management_s.Tickets.Trash.Restores.{restore_ticket_trash_batch-IsValid}
use task_ticket_management_s.Tickets.Trash.Hierarchy.{in_active_hierarchy-closed}
use task_ticket_management_s.Validity.{IsValid}
use task_ticket_management_s.System.{stays, goes_on, creates_ticket, Reaches-IsValid}
use task_ticket_management_s.Tests.{
  key_ab, key_ab_1, key_ab_2, sample_env, sample_db, sample_epic, sample_task, sample-IsValid,
}

abbrev pub sample_create : TicketCreate
sample_create = record {
  labels = [];
  custom_fields = [];
  type = TicketType.task;
  title = key_ab;
  description_document = empty_body_document;
  priority = Priority.minor;
  parent_key = some key_ab_1;
  assignee_id = some 2;
  due_date = none;
}

abbrev pub sample_update : TicketUpdate
sample_update = record {
  labels = none;
  custom_fields = none;
  title = key_ab_2;
  description_document = empty_body_document;
  priority = Priority.major;
  parent_key = none;
  assignee_id = some 1;
  due_date = none;
  expected_version = 1;
}

abbrev pub sample_transition : TicketTransition
sample_transition = record {
  target_status = TicketStatus.done;
  expected_version = 1;
  confirm_incomplete_children = false;
}

abbrev pub sample_relation : TicketRelationCreate
sample_relation = record {
  relation_kind = RelationType.related;
  target_ticket_key = key_ab_1;
  expected_version = 1;
}

abbrev pub sample_document : Document
sample_document = cons (mention_node 2 key_ab) (cons (image_node 4 []) nil)

sample_create_accepted : validate_parent_shape sample_create ≡ true
unfolding validate_parent_shape
sample_create_accepted = refl

Reaches-IsValid_example : IsValid (create_ticket sample_env 2 key_ab sample_create sample_db).1
Reaches-IsValid_example =
    Reaches-IsValid sample_db (create_ticket sample_env 2 key_ab sample_create sample_db).1
      (goes_on sample_db sample_db (create_ticket sample_env 2 key_ab sample_create sample_db).1
        (stays sample_db)
        (creates_ticket sample_env 2 key_ab sample_create sample_db sample_create_accepted refl))
      sample-IsValid

create_ticket-IsValid_example :
    IsValid (create_ticket sample_env 2 key_ab sample_create sample_db).1
create_ticket-IsValid_example =
    create_ticket-IsValid sample_env 2 key_ab sample_create sample_db sample-IsValid
      sample_create_accepted refl

update_ticket-IsValid_example :
    IsValid (update_ticket sample_env 2 key_ab key_ab_2 sample_update sample_db).1
update_ticket-IsValid_example =
    update_ticket-IsValid sample_env 2 key_ab key_ab_2 sample_update sample_db sample-IsValid

transition_ticket-IsValid_example :
    IsValid (transition_ticket sample_env 2 key_ab key_ab_2 sample_transition sample_db).1
transition_ticket-IsValid_example =
    transition_ticket-IsValid sample_env 2 key_ab key_ab_2 sample_transition sample_db
      sample-IsValid

create_ticket_relation-IsValid_example :
    IsValid (create_ticket_relation sample_env 2 key_ab key_ab_2 sample_relation sample_db).1
create_ticket_relation-IsValid_example =
    create_ticket_relation-IsValid sample_env 2 key_ab key_ab_2 sample_relation sample_db
      sample-IsValid

move_ticket_to_trash-IsValid_example :
    IsValid (move_ticket_to_trash sample_env 2 key_ab key_ab_1 1 sample_db).1
move_ticket_to_trash-IsValid_example =
    move_ticket_to_trash-IsValid sample_env 2 key_ab key_ab_1 1 sample_db sample-IsValid

restore_ticket_trash_batch-IsValid_example :
    IsValid
      (restore_ticket_trash_batch sample_env 2 key_ab 9 2
        (move_ticket_to_trash sample_env 2 key_ab key_ab_1 1 sample_db).1).1
restore_ticket_trash_batch-IsValid_example =
    restore_ticket_trash_batch-IsValid sample_env 2 key_ab 9 2
      (move_ticket_to_trash sample_env 2 key_ab key_ab_1 1 sample_db).1
      (move_ticket_to_trash-IsValid sample_env 2 key_ab key_ab_1 1 sample_db sample-IsValid)

abbrev pub sample_project_create : ProjectCreate
sample_project_create = record {
  key = key_ab_2;
  name = key_ab;
  description = [];
  administrator_id = 2;
}

create_project-IsValid_example :
    IsValid (create_project sample_env 3 sample_project_create sample_db).1
create_project-IsValid_example =
    create_project-IsValid sample_env 3 sample_project_create sample_db sample-IsValid refl

update_project_member_role-IsValid_example :
    IsValid (update_project_member_role 1 key_ab 2 ProjectRole.admin sample_db).1
update_project_member_role-IsValid_example =
    update_project_member_role-IsValid 1 key_ab sample_db sample-IsValid 2 ProjectRole.admin

remove_project_member-IsValid_example : IsValid (remove_project_member 1 key_ab 2 sample_db).1
remove_project_member-IsValid_example =
    remove_project_member-IsValid 1 key_ab sample_db sample-IsValid 2

in_active_hierarchy-closed_example :
    in_active_hierarchy sample_db.tickets 1 sample_epic sample_task ≡ true
in_active_hierarchy-closed_example =
    in_active_hierarchy-closed sample_db.tickets sample_db.members sample-IsValid.0 1 sample_epic
      sample_epic sample_task (inl refl) (inl refl) (inr (inl refl)) refl refl refl refl
