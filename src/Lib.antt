-- ===== src/Lib.antt =====
-- The task and ticket management system: a FastAPI application over SQLAlchemy. This library models
-- the core services, those for projects, their participants, their tickets and comments, and those
-- for accounts, with the rules that they keep across the tables.
--
-- The parts and the files that model them (paths from the repository's root):
--   Prelude       the shared tests, lists and texts. A Python `str` is a list of code points; `upper`
--                 knows the ASCII letters, of which a ticket's key consists.
--   Codes         app/domain/codes.py: the persisted codes.
--   Document      app/domain/rich_text.py: the normalised document tree, its mentions, attachments,
--                 schema version and plain text.
--   Store         app/models: the rows of the tables and the database as a record of tables.
--   Action        a service call as a function from the database to a result and a database, with
--                 `AuthError` as a value; app/db/transaction.py as `transaction`. `Action.Triple` has
--                 the rules by which the proofs go through a call, one for each way to build one, and
--                 `Action.Frame` those for a predicate that a call keeps whatever it reads.
--   Projects      app/services/projects.py and app/repositories/projects.py: `Queries`, `Access` (who
--                 may read, write and manage), `Settings` (creation, update, favorite mark),
--                 `Members` (add, change of role, removal).
--   Mentions      app/services/mentions.py: `validate_mentions` and `synchronize_mentions`, and the
--                 check of a document's attachments.
--   Tickets       app/services/tickets.py and app/repositories/tickets.py: `Queries`, `Snapshots`
--                 (history and audit rows), `Guards` (the finite state machine and the guards that
--                 begin each service), `Create`, `Update`, `Transition`, `Relations`, `Trash`,
--                 `Stale` (optimistic locking).
--   Comments      app/services/comments.py and app/repositories/comments.py: `Rows` (queries and the
--                 thread of views), `Listed`, `Threads` and `Shown` (what a list shows).
--   Accounts      app/services/administration.py, app/services/auth.py, app/services/bootstrap.py,
--                 app/domain/auth.py and their repositories: `Passwords`, `Queries`, `Organizations`,
--                 `Users`, `Sessions`, `Bootstrap`; `Tree`, `Reached` and `Listed` are about the
--                 tree of organizations, `Refused` about the errors of a login, `Throttle` about limits on logins, `Tokens` about sessions.
--   Attachments   app/domain/attachments.py and app/storage/attachments.py: `Names` (the checks of a file's
--                 name and media type, and storage keys), `BaseName` and `Accepted` (what they
--                 establish), `Parts` and `Keys` (that a storage key stays in its directory),
--                 `Content` (the checks of contents, with parameters for the decoder of UTF-8 and the
--                 reader of ZIP archives), `Signatures` (that they tell the formats apart).
--   Untouched     the tables that the services of projects and tickets do not write.
--   Validity      what the tables satisfy: CHECK and UNIQUE constraints of app/models/work.py, and
--                 the rules across rows that only the services keep.
--   System        one step is one service call; an execution is a sequence of steps.
--   Tests         a sample database, the theorems at it, and services that are run on it.
--
-- How the state corresponds. A SQLAlchemy session is the record `Db`; a query is a function on its
-- lists, WHERE is `select`, ORDER BY is `order_by`, `scalar` and `one_or_none` are the first row that
-- fits. A service is a do block in the order of its source: guards, reads, writes, and the row that it
-- returns. `session.add` appends, an assignment to a row replaces the row with its id, and a flush
-- raises the version of a ticket whose columns changed. Each service runs in `transaction`, which
-- restores the database when the body raises. Calls run one after another: `with_for_update` and the
-- version column are not modelled as locks, and calls that overlap in time are left out.
--
-- What comes from outside is the record `Env`: the time, the retention of the settings, the ids that
-- the database and `uuid4` give, and whether a document is within the size limits of
-- `validate_body_document`. Theorems on new rows assume that their ids are not in use. Times count
-- microseconds.
--
-- What accounts take from libraries is the record `Secrets`: Argon2, SHA-256, the random token and
-- Unicode's lower case. The rows of the audit log that the services of accounts write are a list of
-- their own, `events`, with the address and the time that the throttle reads. A login that fails
-- returns its exception as a value from the transaction, which commits, and raises it afterwards.
-- A failed login gets the time of the call, where the code leaves it to the default of the column at
-- the flush. Of the mentions of one source by one user there is at most one, by the unique indexes of
-- the table; `synchronize_mentions` would bring back each, where the code brings back the last. The
-- mapping of `IntegrityError` and `StaleDataError` to `AuthError` (`project_operation_context` and its
-- like) is left out, since a call here meets no concurrent write.
--
-- Fuel: the loop of `parent_would_cycle` runs on fuel, two more than the number of tickets, and the
-- loops of `list_organizations` and `update_organization` on two more than the number of
-- organizations. Each turn marks a row that was not marked, so that this is enough on every table.
--
-- Not modelled: the texts of errors and log lines; the columns that no service here reads or
-- writes; the views of lists, boards and details, which only read; parsing of requests (payloads
-- are as their validators leave them); the upload of attachments, filters, dashboards, the transfer
-- of organizations as files, the scheduler, the web pages and the configuration; the HTML of
-- comments; and time stamps of users and organizations.
pub mod Prelude
pub mod Codes
pub mod Document
pub mod Store
pub mod Action
pub mod Projects
pub mod Mentions
pub mod Tickets
pub mod Validity
pub mod Comments
pub mod Accounts
pub mod Attachments
pub mod Untouched
pub mod System
pub mod Tests
