-- ===== src/Transport.antt =====
-- transport/websocket.rs, transport/webtransport.rs: a session, from its registration to its end.
pub mod Session
pub mod WebSocket
pub mod WebTransport
pub mod Reading
pub mod Lifetime
pub mod Endings
mod Fixtures
mod Tests
