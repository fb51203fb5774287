-- ===== src/Auth/Preauth.antt =====
-- preauth.rs and project/preauth_config.rs: the first message of a client.
pub mod Types
pub mod Backend
pub mod Commands
