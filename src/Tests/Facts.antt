-- ===== src/Tests/Facts.antt =====
-- The theorems on parts of the services at the sample database.
use task_ticket_management_s.Prelude.{
  ◌+◌, ◌≡◌, refl, true, false, none, some, [], ◌∷◌, ◌&&◌, ◌==◌, In, any, map, member, is_some,
  is_none,
}
use task_ticket_management_s.Codes.{ProjectRole, TicketStatus, status_eq}
use task_ticket_management_s.Document.{
  iter_mention_nodes, iter_attachment_ids, relabel_mentions, document_schema_version,
}
use task_ticket_management_s.Document.Labels.{relabel_mentions_lem}
use task_ticket_management_s.Store.{Mention, Db}
use task_ticket_management_s.Action.{auth_error, ok, err, transaction}
use task_ticket_management_s.Action.Triple.{Returns}
use task_ticket_management_s.Projects.Queries.{is_terminal}
use task_ticket_management_s.Projects.Access.{require_project_member}
use task_ticket_management_s.Projects.Access.Rules.{
  OnlyAudits, HasAccess, require_project_member-Returns,
}
use task_ticket_management_s.Mentions.{
  of_source, mentioned_ids, synchronize_row, synchronize_mentions,
}
use task_ticket_management_s.Mentions.Synchronized.{
  synchronize_mentions-live, synchronize_mentions_complete,
}
use task_ticket_management_s.Tickets.Guards.{is_allowed_transition}
use task_ticket_management_s.Tickets.Guards.Machine.{
  Leads, is_allowed_transition_lem, get_allowed_transitions-Leads,
}
use task_ticket_management_s.Tickets.Update.{parent_would_cycle}
use task_ticket_management_s.Tickets.Update.Cycles.{parent_would_cycle-total}
use task_ticket_management_s.Tickets.Transition.{transition_ticket, apply_transition}
use task_ticket_management_s.Tickets.Transition.Stamps.{apply_transition-reopen}
use task_ticket_management_s.Tickets.Trash.{trash_ticket, restore_ticket}
use task_ticket_management_s.Tickets.Trash.Rows.{restore_ticket-trash_ticket}
use task_ticket_management_s.Projects.Access.{
  ProjectView, build_project_view, is_system_administrator, when,
}
use task_ticket_management_s.Projects.Access.Rules.{IsActiveActor}
use task_ticket_management_s.Projects.Access.Decides.{
  need, decision, require_project_member-decision,
}
use task_ticket_management_s.Projects.Queries.{accessible_project}
use task_ticket_management_s.Prelude.{text_eq, upper, strip}
use task_ticket_management_s.Action.{◌>>=◌}
use task_ticket_management_s.Tickets.Queries.{TicketRow}
use task_ticket_management_s.Tickets.Snapshots.{put_ticket}
use task_ticket_management_s.Tickets.Transition.Completes.{IsPermitted, transition_ticket-completes}
use task_ticket_management_s.Tests.{
  sample_project, sample_user, key_ab, key_ab_1, key_ab_2, sample_env, sample_db, sample_task,
  sample_task-IsValidRow,
}
use task_ticket_management_s.Prelude.{not, inl}
use task_ticket_management_s.Action.{ticket_version_conflict}
use task_ticket_management_s.Tickets.Update.{update_ticket}
use task_ticket_management_s.Tickets.Trash.{move_ticket_to_trash}
use task_ticket_management_s.Tickets.Relations.{create_ticket_relation, delete_ticket_relation}
use task_ticket_management_s.Tickets.Stale.{IsWritable, stale_version_lem}
use task_ticket_management_s.Projects.Members.{
  remove_project_member, remove_member_body, require_member_removal_constraints, add_project_member,
  add_member_body,
}
use task_ticket_management_s.Projects.Settings.{lock_project_management}
use task_ticket_management_s.Projects.Members.Removal.{IsRemoved, remove_project_member-IsRemoved}
use task_ticket_management_s.Projects.Members.Added.{IsAdded, add_project_member-IsAdded}
use task_ticket_management_s.Tests.{sample_member, sample_env, sample_mention}
use task_ticket_management_s.Tests.Examples.{
  sample_update, sample_relation, sample_document, sample_transition,
}

parent_would_cycle-total_example :
    is_some (parent_would_cycle sample_db.tickets 1 2 (some 1)) ≡ true
parent_would_cycle-total_example = parent_would_cycle-total sample_db.tickets 1 2 (some 1)

require_project_member-Returns_example :
    Returns
      (λ p d. OnlyAudits sample_db d × HasAccess sample_db false true 2 key_ab p)
      (require_project_member false true 2 key_ab sample_db)
require_project_member-Returns_example =
    require_project_member-Returns false true 2 key_ab sample_db

sample_step : is_allowed_transition TicketStatus.in_progress TicketStatus.done ≡ true
unfolding is_allowed_transition
sample_step = refl

is_allowed_transition_lem_example :
    (status_eq TicketStatus.in_progress TicketStatus.done ≡ false)
    × ((status_eq TicketStatus.done TicketStatus.done
          && not (status_eq TicketStatus.in_progress TicketStatus.in_progress))
        ≡ false)
    × ((is_terminal TicketStatus.in_progress && is_terminal TicketStatus.done) ≡ false)
is_allowed_transition_lem_example =
    is_allowed_transition_lem TicketStatus.in_progress TicketStatus.done sample_step

get_allowed_transitions-Leads_example : Leads TicketStatus.cancelled TicketStatus.done
get_allowed_transitions-Leads_example =
    get_allowed_transitions-Leads TicketStatus.cancelled TicketStatus.done

apply_transition-reopen_example :
    apply_transition 700 TicketStatus.in_progress
      (apply_transition 600 TicketStatus.done sample_task)
    ≡ record sample_task { version = sample_task.version + 1 + 1; updated_at = 700 }
apply_transition-reopen_example =
    apply_transition-reopen sample_db.members sample_task 200 600 700 sample_task-IsValidRow refl
      refl

restore_ticket-trash_ticket_example :
    restore_ticket 700 (trash_ticket 600 9 sample_task)
    ≡ record sample_task { version = sample_task.version + 1 + 1; updated_at = 700 }
restore_ticket-trash_ticket_example =
    restore_ticket-trash_ticket sample_db.members sample_task 600 9 700 sample_task-IsValidRow refl

abbrev removed_mention : Mention
removed_mention = record sample_mention { removed_at = some 600 }

removed_mention-In :
    In removed_mention
      (synchronize_mentions 600 2 sample_task sample_document none sample_db.mentions)
unfolding synchronize_mentions synchronize_row iter_mention_nodes
removed_mention-In = inl refl

synchronize_mentions-live_example :
    is_none removed_mention.removed_at ≡ member 1 (mentioned_ids sample_document)
synchronize_mentions-live_example =
    synchronize_mentions-live 600 2 sample_task sample_document none sample_db.mentions
      removed_mention removed_mention-In refl

sample-mentioned : member 2 (mentioned_ids sample_document) ≡ true
unfolding iter_mention_nodes
sample-mentioned = refl

synchronize_mentions_complete_example :
    any
      (λ m. of_source 2 none m && (m.target_user_id == 2) && is_none m.removed_at)
      (synchronize_mentions 600 2 sample_task sample_document none sample_db.mentions)
    ≡ true
synchronize_mentions_complete_example =
    synchronize_mentions_complete 600 2 sample_task sample_document none sample_db.mentions 2
      sample-mentioned

relabel_mentions_lem_example :
    (iter_mention_nodes (relabel_mentions (λ u. key_ab_1) sample_document)
      ≡ map (λ m. (m.0, key_ab_1)) (iter_mention_nodes sample_document))
    × (iter_attachment_ids (relabel_mentions (λ u. key_ab_1) sample_document)
        ≡ iter_attachment_ids sample_document)
    × (document_schema_version (relabel_mentions (λ u. key_ab_1) sample_document)
        ≡ document_schema_version sample_document)
relabel_mentions_lem_example = relabel_mentions_lem (λ u. key_ab_1) sample_document

abbrev sample_view : ProjectView
sample_view = build_project_view sample_project (some ProjectRole.user) false false

abbrev sample_row : TicketRow
sample_row = record { ticket = sample_task; parent_key = some key_ab_1 }

sample_task-IsPermitted :
    IsPermitted 2 key_ab key_ab_2 sample_transition sample_db sample_view [] sample_row
unfolding require_project_member is_system_administrator when ◌>>=◌ text_eq upper strip
    is_allowed_transition
sample_task-IsPermitted = record {
  access = refl;
  active = refl;
  found = refl;
  normal = refl;
  version = refl;
  allowed = refl;
  assigned = refl;
  dependencies = refl;
  children = refl;
}

transition_ticket-completes_example :
    ((r : TicketRow) × ((transition_ticket sample_env 2 key_ab key_ab_2 sample_transition
          sample_db).0
        ≡ ok r))
    × ((transition_ticket sample_env 2 key_ab key_ab_2 sample_transition sample_db).1.tickets
        ≡ put_ticket (apply_transition 500 TicketStatus.done sample_task) sample_db.tickets)
transition_ticket-completes_example =
    transition_ticket-completes sample_env 2 key_ab key_ab_2 sample_transition sample_db sample_view
      [] sample_row sample_task-IsPermitted

sample_user-IsActiveActor : IsActiveActor sample_db 2 false
sample_user-IsActiveActor = record {
  user = sample_user 2;
  found = refl;
  active = refl;
  password = refl;
  administers = refl;
}

require_project_member-decision_example :
    (require_project_member true false 2 key_ab sample_db).0
    ≡ decision false (need true false) (accessible_project sample_db key_ab 2 false)
require_project_member-decision_example =
    require_project_member-decision true false 2 key_ab sample_db false sample_user-IsActiveActor
      (accessible_project sample_db key_ab 2 false) refl

sample_task-IsWritable : IsWritable 2 key_ab key_ab_2 sample_db sample_view [] sample_row
sample_task-IsWritable = record {
  access = sample_task-IsPermitted.access;
  active = refl;
  found = sample_task-IsPermitted.found;
}

stale_version_lem_example :
    (transition_ticket sample_env 2 key_ab key_ab_2
        (record sample_transition { expected_version = 7 })
        sample_db
      ≡ (err (auth_error ticket_version_conflict 409), sample_db))
    × (update_ticket sample_env 2 key_ab key_ab_2
          (record sample_update { expected_version = 7 })
          sample_db
        ≡ (err (auth_error ticket_version_conflict 409), sample_db))
    × (move_ticket_to_trash sample_env 2 key_ab key_ab_2 7 sample_db
        ≡ (err (auth_error ticket_version_conflict 409), sample_db))
    × (create_ticket_relation sample_env 2 key_ab key_ab_2
          (record sample_relation { expected_version = 7 })
          sample_db
        ≡ (err (auth_error ticket_version_conflict 409), sample_db))
    × (delete_ticket_relation sample_env 2 key_ab key_ab_2 9 7 sample_db
        ≡ (err (auth_error ticket_version_conflict 409), sample_db))
stale_version_lem_example =
    stale_version_lem sample_env 2 key_ab key_ab_2 sample_db sample_view [] sample_row
      sample_task-IsWritable 7 refl sample_transition sample_update sample_relation 9

abbrev sample_admin_view : ProjectView
sample_admin_view = build_project_view sample_project (some ProjectRole.admin) false false

-- With a guest more, whom an administrator removes.
abbrev guest_db : Db
guest_db = record sample_db {
  members =
      sample_member 1 ProjectRole.admin
      ∷ sample_member 2 ProjectRole.user
      ∷ sample_member 3 ProjectRole.guest
      ∷ [];
}

sample_removal_run : (remove_project_member 1 key_ab 3 guest_db).0 ≡ ok 3
unfolding remove_project_member remove_member_body lock_project_management transaction ◌>>=◌
    require_member_removal_constraints require_project_member is_system_administrator when text_eq
sample_removal_run = refl

remove_project_member-IsRemoved_example :
    IsRemoved 1 key_ab 3 guest_db 3 (remove_project_member 1 key_ab 3 guest_db).1
remove_project_member-IsRemoved_example =
    remove_project_member-IsRemoved 1 key_ab 3 guest_db 3 sample_removal_run

sample_addition_run :
    (add_project_member sample_env 1 key_ab 3 ProjectRole.guest sample_db).0 ≡ ok 9
unfolding add_project_member add_member_body transaction ◌>>=◌ require_project_member
    is_system_administrator when text_eq
sample_addition_run = refl

add_project_member-IsAdded_example :
    IsAdded sample_env 1 key_ab 3 ProjectRole.guest sample_db 9
      (add_project_member sample_env 1 key_ab 3 ProjectRole.guest sample_db).1
add_project_member-IsAdded_example =
    add_project_member-IsAdded sample_env 1 key_ab 3 ProjectRole.guest sample_db 9
      sample_addition_run
