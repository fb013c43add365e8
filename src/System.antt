-- ===== src/System.antt =====
-- The services together: one step is one call of one of them, in its own transaction, with any
-- actor and payload, and an execution is a sequence of steps. Calls that overlap in time are left
-- out.
use task_ticket_management_s.Prelude.{ℕ, ◌≡◌, Bool, true, false, Option, member, Text}
use task_ticket_management_s.Codes.{ProjectRole}
use task_ticket_management_s.Store.{Db}
use task_ticket_management_s.Action.{Env}
use task_ticket_management_s.Projects.Settings.{
  ProjectCreate, ProjectUpdate, create_project, update_project, set_project_favorite,
}
use task_ticket_management_s.Projects.Settings.Keeps.{
  create_project-IsValid, update_project-IsValid, set_project_favorite-IsValid,
}
use task_ticket_management_s.Projects.Members.{
  add_project_member, update_project_member_role, remove_project_member,
}
use task_ticket_management_s.Projects.Members.Rows.{member_ids}
use task_ticket_management_s.Projects.Members.Keeps.{
  add_project_member-IsValid, update_project_member_role-IsValid, remove_project_member-IsValid,
}
use task_ticket_management_s.Tickets.Queries.{ids}
use task_ticket_management_s.Tickets.Create.{TicketCreate, validate_parent_shape, create_ticket}
use task_ticket_management_s.Tickets.Create.Keeps.{create_ticket-IsValid}
use task_ticket_management_s.Tickets.Update.{TicketUpdate, update_ticket}
use task_ticket_management_s.Tickets.Update.Keeps.{update_ticket-IsValid}
use task_ticket_management_s.Tickets.Transition.{TicketTransition, transition_ticket}
use task_ticket_management_s.Tickets.Transition.Keeps.{transition_ticket-IsValid}
use task_ticket_management_s.Tickets.Relations.{
  TicketRelationCreate, create_ticket_relation, delete_ticket_relation,
}
use task_ticket_management_s.Tickets.Relations.Keeps.{
  create_ticket_relation-IsValid, delete_ticket_relation-IsValid,
}
use task_ticket_management_s.Tickets.Trash.{move_ticket_to_trash, restore_ticket_trash_batch}
use task_ticket_management_s.Tickets.Trash.Keeps.{move_ticket_to_trash-IsValid}
use task_ticket_management_s.Tickets.Trash.Restores.{restore_ticket_trash_batch-IsValid}
use task_ticket_management_s.Comments.{
  CommentCreate, CommentUpdate, create_comment, update_comment, delete_comment,
}
use task_ticket_management_s.Untouched.{
  set_project_favorite-Keeps, create_project-Keeps, update_project-Keeps, add_project_member-Keeps,
  update_project_member_role-Keeps, remove_project_member-Keeps, create_ticket-Keeps,
  update_ticket-Keeps, transition_ticket-Keeps, create_ticket_relation-Keeps,
  delete_ticket_relation-Keeps, move_ticket_to_trash-Keeps, restore_ticket_trash_batch-Keeps,
}
use task_ticket_management_s.Comments.Keeps.{
  create_comment-Keeps, update_comment-Keeps, delete_comment-Keeps, create_comment-IsValidComments,
  update_comment-IsValidComments, delete_comment-IsValidComments,
}
use task_ticket_management_s.Accounts.Passwords.{Secrets, Settings, Identity}
use task_ticket_management_s.Accounts.Organizations.{
  OrganizationCreate, OrganizationUpdate, create_organization, update_organization,
}
use task_ticket_management_s.Accounts.Users.{
  UserCreate, UserUpdate, create_user, update_user, reset_user_password,
}
use task_ticket_management_s.Accounts.Sessions.{
  authenticate_user, logout_user, change_user_password,
}
use task_ticket_management_s.Accounts.Keeps.{create_organization-Keeps, update_organization-Keeps}
use task_ticket_management_s.Accounts.Administered.{
  create_user-IsValid, update_user-IsValid, reset_user_password-IsValid,
}
use task_ticket_management_s.Accounts.Logins.{
  authenticate_user-Keeps, logout_user-Keeps, change_user_password-Keeps,
}
use task_ticket_management_s.Accounts.Validity.{user_ids, IsValidAccounts, AreValid}
use task_ticket_management_s.Untouched
use task_ticket_management_s.Comments
use task_ticket_management_s.Accounts
use task_ticket_management_s.Validity.{IsValid, IsValidTickets, IsValidRelations, IsValidMembers}
use task_ticket_management_s.Validity.Comments.{IsValidComments, comment_ids}

-- One call, from the database before it to the one after it. The database gives new rows new ids,
-- and the schema has accepted the payload of a new ticket.
pub data Step : Db → Db → Type 0 where
  creates_project :
      (env : Env) (actor : ℕ) (payload : ProjectCreate) (db : Db)
      → member env.new_member_id (member_ids db.members) ≡ false
      → Step db (create_project env actor payload db).1
  updates_project :
      (actor : ℕ) (key : Text) (payload : ProjectUpdate) (db : Db)
      → Step db (update_project actor key payload db).1
  marks_favorite :
      (actor : ℕ) (key : Text) (b : Bool) (db : Db)
      → Step db (set_project_favorite actor key b db).1
  adds_member :
      (env : Env) (actor : ℕ) (key : Text) (uid : ℕ) (r : ProjectRole) (db : Db)
      → member env.new_member_id (member_ids db.members) ≡ false
      → Step db (add_project_member env actor key uid r db).1
  changes_role :
      (actor : ℕ) (key : Text) (mid : ℕ) (r : ProjectRole) (db : Db)
      → Step db (update_project_member_role actor key mid r db).1
  removes_member :
      (actor : ℕ) (key : Text) (mid : ℕ) (db : Db)
      → Step db (remove_project_member actor key mid db).1
  creates_ticket :
      (env : Env) (actor : ℕ) (key : Text) (payload : TicketCreate) (db : Db)
      → validate_parent_shape payload ≡ true
      → member env.new_id (ids db.tickets) ≡ false
      → Step db (create_ticket env actor key payload db).1
  updates_ticket :
      (env : Env) (actor : ℕ) (key ticket_key : Text) (payload : TicketUpdate) (db : Db)
      → Step db (update_ticket env actor key ticket_key payload db).1
  transitions_ticket :
      (env : Env) (actor : ℕ) (key ticket_key : Text) (payload : TicketTransition) (db : Db)
      → Step db (transition_ticket env actor key ticket_key payload db).1
  creates_relation :
      (env : Env) (actor : ℕ) (key ticket_key : Text) (payload : TicketRelationCreate) (db : Db)
      → Step db (create_ticket_relation env actor key ticket_key payload db).1
  deletes_relation :
      (env : Env) (actor : ℕ) (key ticket_key : Text) (relation expected : ℕ) (db : Db)
      → Step db (delete_ticket_relation env actor key ticket_key relation expected db).1
  moves_to_trash :
      (env : Env) (actor : ℕ) (key ticket_key : Text) (expected : ℕ) (db : Db)
      → Step db (move_ticket_to_trash env actor key ticket_key expected db).1
  restores_batch :
      (env : Env) (actor : ℕ) (key : Text) (batch expected : ℕ) (db : Db)
      → Step db (restore_ticket_trash_batch env actor key batch expected db).1
  creates_comment :
      (env : Env) (actor : ℕ) (key ticket_key : Text) (payload : CommentCreate) (db : Db)
      → member env.new_id (comment_ids db.comments) ≡ false
      → Step db (create_comment env actor key ticket_key payload db).1
  updates_comment :
      (env : Env) (actor : ℕ) (key ticket_key : Text) (cid : ℕ) (payload : CommentUpdate) (db : Db)
      → Step db (update_comment env actor key ticket_key cid payload db).1
  deletes_comment :
      (env : Env) (actor : ℕ) (key ticket_key : Text) (cid expected : ℕ) (db : Db)
      → Step db (delete_comment env actor key ticket_key cid expected db).1
  creates_organization :
      (env : Env) (key : Text) (actor : ℕ) (payload : OrganizationCreate) (ip : Text) (db : Db)
      → Step db (create_organization env key actor payload ip db).1
  updates_organization :
      (env : Env) (actor oid : ℕ) (payload : OrganizationUpdate) (ip : Text) (db : Db)
      → Step db (update_organization env actor oid payload ip db).1
  creates_user :
      (env : Env) (secrets : Secrets) (actor : ℕ) (payload : UserCreate) (ip : Text) (db : Db)
      → member env.new_id (user_ids db.users) ≡ false
      → Step db (create_user env secrets actor payload ip db).1
  updates_user :
      (env : Env) (actor uid : ℕ) (payload : UserUpdate) (ip : Text) (db : Db)
      → Step db (update_user env actor uid payload ip db).1
  resets_password :
      (env : Env) (secrets : Secrets) (actor uid : ℕ) (password ip : Text) (db : Db)
      → Step db (reset_user_password env secrets actor uid password ip db).1
  logs_in :
      (env : Env) (secrets : Secrets) (settings : Settings) (login password ip : Text)
      (previous : Option Text) (db : Db)
      → Step db (authenticate_user env secrets settings login password ip previous db).1
  logs_out :
      (env : Env) (secrets : Secrets) (identity : Identity) (token ip : Text) (db : Db)
      → Step db (logout_user env secrets identity token ip db).1
  changes_password :
      (env : Env) (secrets : Secrets) (settings : Settings) (identity : Identity)
      (current password confirmation ip : Text) (db : Db)
      → Step db
          (change_user_password env secrets settings identity current password confirmation ip db).1

-- Any number of calls.
pub data Reaches : Db → Db → Type 0 where
  stays : (db : Db) → Reaches db db
  goes_on : (db mid db' : Db) → Reaches db mid → Step mid db' → Reaches db db'

-- What the three invariants see of the tables.
abbrev CommentsOnly : Untouched.Tables
CommentsOnly cs us os ss = IsValidComments cs

abbrev AccountsOnly : Untouched.Tables
AccountsOnly cs us os ss = IsValidAccounts us os ss

abbrev WorkOnly : Comments.Keeps.Tables
WorkOnly ts rs ps ms us os ss = IsValidTickets ts ms × IsValidRelations rs × IsValidMembers ps ms

abbrev AccountTables : Comments.Keeps.Tables
AccountTables ts rs ps ms us os ss = IsValidAccounts us os ss

abbrev WorkTables : Accounts.Untouched.Tables
WorkTables ts rs ps ms cs = IsValidTickets ts ms × IsValidRelations rs × IsValidMembers ps ms

abbrev CommentTables : Accounts.Untouched.Tables
CommentTables ts rs ps ms cs = IsValidComments cs

-- One call of any service keeps the tables valid.
pub Step-IsValid : (db db' : Db) → Step db db' → IsValid db → IsValid db'
Step-IsValid db _ (creates_project env actor payload _ fresh) v =
    create_project-IsValid env actor payload db v fresh
Step-IsValid db _ (updates_project actor key payload _) v =
    update_project-IsValid actor key db v payload
Step-IsValid db _ (marks_favorite actor key b _) v = set_project_favorite-IsValid actor key db v b
Step-IsValid db _ (adds_member env actor key uid r _ fresh) v =
    add_project_member-IsValid actor key db v env uid r fresh
Step-IsValid db _ (changes_role actor key mid r _) v =
    update_project_member_role-IsValid actor key db v mid r
Step-IsValid db _ (removes_member actor key mid _) v =
    remove_project_member-IsValid actor key db v mid
Step-IsValid db _ (creates_ticket env actor key payload _ accepted fresh) v =
    create_ticket-IsValid env actor key payload db v accepted fresh
Step-IsValid db _ (updates_ticket env actor key ticket_key payload _) v =
    update_ticket-IsValid env actor key ticket_key payload db v
Step-IsValid db _ (transitions_ticket env actor key ticket_key payload _) v =
    transition_ticket-IsValid env actor key ticket_key payload db v
Step-IsValid db _ (creates_relation env actor key ticket_key payload _) v =
    create_ticket_relation-IsValid env actor key ticket_key payload db v
Step-IsValid db _ (deletes_relation env actor key ticket_key relation expected _) v =
    delete_ticket_relation-IsValid env actor key ticket_key relation expected db v
Step-IsValid db _ (moves_to_trash env actor key ticket_key expected _) v =
    move_ticket_to_trash-IsValid env actor key ticket_key expected db v
Step-IsValid db _ (restores_batch env actor key batch expected _) v =
    restore_ticket_trash_batch-IsValid env actor key batch expected db v
Step-IsValid db _ (creates_comment env actor key ticket_key payload _ fresh) v =
    (create_comment-Keeps WorkOnly env actor key ticket_key payload).at db v
Step-IsValid db _ (updates_comment env actor key ticket_key cid payload _) v =
    (update_comment-Keeps WorkOnly env actor key ticket_key cid payload).at db v
Step-IsValid db _ (deletes_comment env actor key ticket_key cid expected _) v =
    (delete_comment-Keeps WorkOnly env actor key ticket_key cid expected).at db v
Step-IsValid db _ (creates_organization env key actor payload ip _) v =
    (Accounts.Untouched.create_organization-Keeps WorkTables env key actor payload ip).at db v
Step-IsValid db _ (updates_organization env actor oid payload ip _) v =
    (Accounts.Untouched.update_organization-Keeps WorkTables env actor oid payload ip).at db v
Step-IsValid db _ (creates_user env secrets actor payload ip _ fresh) v =
    (Accounts.Untouched.create_user-Keeps WorkTables env secrets actor payload ip).at db v
Step-IsValid db _ (updates_user env actor uid payload ip _) v =
    (Accounts.Untouched.update_user-Keeps WorkTables env actor uid payload ip).at db v
Step-IsValid db _ (resets_password env secrets actor uid password ip _) v =
    (Accounts.Untouched.reset_user_password-Keeps WorkTables env secrets actor uid password ip).at
      db v
Step-IsValid db _ (logs_in env secrets settings login password ip previous _) v =
    (Accounts.Untouched.authenticate_user-Keeps WorkTables env secrets settings login password ip
        previous).at
      db v
Step-IsValid db _ (logs_out env secrets identity token ip _) v =
    (Accounts.Untouched.logout_user-Keeps WorkTables env secrets identity token ip).at db v
Step-IsValid db _
      (changes_password env secrets settings identity current password confirmation ip _) v =
    (Accounts.Untouched.change_user_password-Keeps WorkTables env secrets settings identity current
        password confirmation ip).at
      db v

-- One call of any service keeps the comments valid.
pub Step-IsValidComments :
    (db db' : Db) → Step db db' → IsValidComments db.comments → IsValidComments db'.comments
Step-IsValidComments db _ (creates_project env actor payload _ fresh) v =
    (create_project-Keeps CommentsOnly env actor payload).at db v
Step-IsValidComments db _ (updates_project actor key payload _) v =
    (update_project-Keeps CommentsOnly actor key payload).at db v
Step-IsValidComments db _ (marks_favorite actor key b _) v =
    (set_project_favorite-Keeps CommentsOnly actor key b).at db v
Step-IsValidComments db _ (adds_member env actor key uid r _ fresh) v =
    (add_project_member-Keeps CommentsOnly env actor key uid r).at db v
Step-IsValidComments db _ (changes_role actor key mid r _) v =
    (update_project_member_role-Keeps CommentsOnly actor key mid r).at db v
Step-IsValidComments db _ (removes_member actor key mid _) v =
    (remove_project_member-Keeps CommentsOnly actor key mid).at db v
Step-IsValidComments db _ (creates_ticket env actor key payload _ accepted fresh) v =
    (create_ticket-Keeps CommentsOnly env actor key payload).at db v
Step-IsValidComments db _ (updates_ticket env actor key ticket_key payload _) v =
    (update_ticket-Keeps CommentsOnly env actor key ticket_key payload).at db v
Step-IsValidComments db _ (transitions_ticket env actor key ticket_key payload _) v =
    (transition_ticket-Keeps CommentsOnly env actor key ticket_key payload).at db v
Step-IsValidComments db _ (creates_relation env actor key ticket_key payload _) v =
    (create_ticket_relation-Keeps CommentsOnly env actor key ticket_key payload).at db v
Step-IsValidComments db _ (deletes_relation env actor key ticket_key relation expected _) v =
    (delete_ticket_relation-Keeps CommentsOnly env actor key ticket_key relation expected).at db v
Step-IsValidComments db _ (moves_to_trash env actor key ticket_key expected _) v =
    (move_ticket_to_trash-Keeps CommentsOnly env actor key ticket_key expected).at db v
Step-IsValidComments db _ (restores_batch env actor key batch expected _) v =
    (restore_ticket_trash_batch-Keeps CommentsOnly env actor key batch expected).at db v
Step-IsValidComments db _ (creates_comment env actor key ticket_key payload _ fresh) v =
    create_comment-IsValidComments env actor key ticket_key db v payload fresh
Step-IsValidComments db _ (updates_comment env actor key ticket_key cid payload _) v =
    update_comment-IsValidComments env actor key ticket_key db v cid payload
Step-IsValidComments db _ (deletes_comment env actor key ticket_key cid expected _) v =
    delete_comment-IsValidComments env actor key ticket_key db v cid expected
Step-IsValidComments db _ (creates_organization env key actor payload ip _) v =
    (Accounts.Untouched.create_organization-Keeps CommentTables env key actor payload ip).at db v
Step-IsValidComments db _ (updates_organization env actor oid payload ip _) v =
    (Accounts.Untouched.update_organization-Keeps CommentTables env actor oid payload ip).at db v
Step-IsValidComments db _ (creates_user env secrets actor payload ip _ fresh) v =
    (Accounts.Untouched.create_user-Keeps CommentTables env secrets actor payload ip).at db v
Step-IsValidComments db _ (updates_user env actor uid payload ip _) v =
    (Accounts.Untouched.update_user-Keeps CommentTables env actor uid payload ip).at db v
Step-IsValidComments db _ (resets_password env secrets actor uid password ip _) v =
    (Accounts.Untouched.reset_user_password-Keeps CommentTables env secrets actor uid password
        ip).at
      db v
Step-IsValidComments db _ (logs_in env secrets settings login password ip previous _) v =
    (Accounts.Untouched.authenticate_user-Keeps CommentTables env secrets settings login password ip
        previous).at
      db v
Step-IsValidComments db _ (logs_out env secrets identity token ip _) v =
    (Accounts.Untouched.logout_user-Keeps CommentTables env secrets identity token ip).at db v
Step-IsValidComments db _
      (changes_password env secrets settings identity current password confirmation ip _) v =
    (Accounts.Untouched.change_user_password-Keeps CommentTables env secrets settings identity
        current password confirmation ip).at
      db v

-- One call of any service keeps the accounts valid.
pub Step-AreValid : (db db' : Db) → Step db db' → AreValid db → AreValid db'
Step-AreValid db _ (creates_project env actor payload _ fresh) v =
    (create_project-Keeps AccountsOnly env actor payload).at db v
Step-AreValid db _ (updates_project actor key payload _) v =
    (update_project-Keeps AccountsOnly actor key payload).at db v
Step-AreValid db _ (marks_favorite actor key b _) v =
    (set_project_favorite-Keeps AccountsOnly actor key b).at db v
Step-AreValid db _ (adds_member env actor key uid r _ fresh) v =
    (add_project_member-Keeps AccountsOnly env actor key uid r).at db v
Step-AreValid db _ (changes_role actor key mid r _) v =
    (update_project_member_role-Keeps AccountsOnly actor key mid r).at db v
Step-AreValid db _ (removes_member actor key mid _) v =
    (remove_project_member-Keeps AccountsOnly actor key mid).at db v
Step-AreValid db _ (creates_ticket env actor key payload _ accepted fresh) v =
    (create_ticket-Keeps AccountsOnly env actor key payload).at db v
Step-AreValid db _ (updates_ticket env actor key ticket_key payload _) v =
    (update_ticket-Keeps AccountsOnly env actor key ticket_key payload).at db v
Step-AreValid db _ (transitions_ticket env actor key ticket_key payload _) v =
    (transition_ticket-Keeps AccountsOnly env actor key ticket_key payload).at db v
Step-AreValid db _ (creates_relation env actor key ticket_key payload _) v =
    (create_ticket_relation-Keeps AccountsOnly env actor key ticket_key payload).at db v
Step-AreValid db _ (deletes_relation env actor key ticket_key relation expected _) v =
    (delete_ticket_relation-Keeps AccountsOnly env actor key ticket_key relation expected).at db v
Step-AreValid db _ (moves_to_trash env actor key ticket_key expected _) v =
    (move_ticket_to_trash-Keeps AccountsOnly env actor key ticket_key expected).at db v
Step-AreValid db _ (restores_batch env actor key batch expected _) v =
    (restore_ticket_trash_batch-Keeps AccountsOnly env actor key batch expected).at db v
Step-AreValid db _ (creates_comment env actor key ticket_key payload _ fresh) v =
    (create_comment-Keeps AccountTables env actor key ticket_key payload).at db v
Step-AreValid db _ (updates_comment env actor key ticket_key cid payload _) v =
    (update_comment-Keeps AccountTables env actor key ticket_key cid payload).at db v
Step-AreValid db _ (deletes_comment env actor key ticket_key cid expected _) v =
    (delete_comment-Keeps AccountTables env actor key ticket_key cid expected).at db v
Step-AreValid db _ (creates_organization env key actor payload ip _) v =
    (create_organization-Keeps env actor key payload ip).at db v
Step-AreValid db _ (updates_organization env actor oid payload ip _) v =
    (update_organization-Keeps env actor oid payload ip).at db v
Step-AreValid db _ (creates_user env secrets actor payload ip _ fresh) v =
    create_user-IsValid env actor db v secrets payload ip fresh
Step-AreValid db _ (updates_user env actor uid payload ip _) v =
    update_user-IsValid env actor db v uid payload ip
Step-AreValid db _ (resets_password env secrets actor uid password ip _) v =
    reset_user_password-IsValid env actor db v secrets uid password ip
Step-AreValid db _ (logs_in env secrets settings login password ip previous _) v =
    (authenticate_user-Keeps env secrets settings login password ip previous).at db v
Step-AreValid db _ (logs_out env secrets identity token ip _) v =
    (logout_user-Keeps env secrets identity token ip).at db v
Step-AreValid db _
      (changes_password env secrets settings identity current password confirmation ip _) v =
    (change_user_password-Keeps env secrets settings identity current password confirmation ip).at
      db v

-- If the tables are valid, they are valid after any sequence of service calls with any actors and
-- payloads, where new rows get unused ids and the payload of a new ticket has passed its
-- validator: parents are of the same project, of the type above, and outside the trash if their
-- children are; time stamps go with the status; open tickets are assigned to members who are not
-- guests; relations are distinct and canonical; every project has an administrator.
pub Reaches-IsValid : (db db' : Db) → Reaches db db' → IsValid db → IsValid db'
Reaches-IsValid db _ (stays _) v = v
Reaches-IsValid db db' (goes_on _ mid _ path step) v =
    Step-IsValid mid db' step (Reaches-IsValid db mid path v)

-- If the comments' table is valid, it is valid after any sequence of service calls with any actors
-- and payloads, where new comments get unused ids: ids are unique, a reply answers a root of the
-- same project and ticket, so that threads have one level of replies, the two columns of a
-- deletion go together, versions are positive, and the schema version is that of the body.
pub Reaches-IsValidComments :
    (db db' : Db) → Reaches db db' → IsValidComments db.comments → IsValidComments db'.comments
Reaches-IsValidComments db _ (stays _) v = v
Reaches-IsValidComments db db' (goes_on _ mid _ path step) v =
    Step-IsValidComments mid db' step (Reaches-IsValidComments db mid path v)

-- If the accounts are valid, they are valid after any sequence of service calls with any actors,
-- payloads, passwords and tokens, where new users get unused ids: there is an active system
-- administrator, each session is of an active user, each user has an organization, the two columns
-- of a deactivation are set for the users who are not active and for no others, and ids are
-- unique.
pub Reaches-AreValid : (db db' : Db) → Reaches db db' → AreValid db → AreValid db'
Reaches-AreValid db _ (stays _) v = v
Reaches-AreValid db db' (goes_on _ mid _ path step) v =
    Step-AreValid mid db' step (Reaches-AreValid db mid path v)
