-- ===== src/Projects.antt =====
-- app/services/projects.py and app/repositories/projects.py.
pub mod Queries
pub mod Access
pub mod Settings
pub mod Members
