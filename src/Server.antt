-- ===== src/Server.antt =====
-- internal/server: who may call the HTTP interface, what agents may push, and what a scan leaves in
-- the database and sends out.
pub mod Auth
pub mod Session
pub mod Notices
pub mod Records
pub mod Persist
pub mod Ingest
pub mod Webhook
pub mod History
