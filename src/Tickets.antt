-- ===== src/Tickets.antt =====
-- app/services/tickets.py and app/repositories/tickets.py.
pub mod Queries
pub mod Snapshots
pub mod Guards
pub mod Transition
pub mod Relations
pub mod Trash
pub mod Create
pub mod Update
pub mod Stale
