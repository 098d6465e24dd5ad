-- ===== src/Secrets.antt =====
-- app/routers/secrets.py and app/routers/secret_access.py: the life of a text secret.
pub mod Create
pub mod Retrieve
pub mod Manage
pub mod Access
pub mod Guards
pub mod Rows
pub mod Views
