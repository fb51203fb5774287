-- ===== src/Auth.antt =====
-- What happens between the opening of a transport and the registration of a session.
pub mod Preauth
pub mod Jwt
pub mod Session
pub mod Tokens
pub mod Guarantees
pub mod Admission
