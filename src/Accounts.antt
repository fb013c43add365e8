-- ===== src/Accounts.antt =====
-- Accounts: organizations, users, passwords and sessions (app/services/administration.py,
-- app/services/auth.py, app/services/bootstrap.py, app/domain/auth.py and their repositories).
pub mod Passwords
pub mod Queries
pub mod Organizations
pub mod Users
pub mod Sessions
pub mod Tree
pub mod Validity
pub mod Keeps
pub mod Edited
pub mod Administered
pub mod Logins
pub mod Untouched
pub mod Throttle
pub mod Tokens
pub mod Bootstrap
pub mod Refused
pub mod Reached
pub mod Listed
