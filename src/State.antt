-- ===== src/State.antt =====
-- state.rs: the state that all sessions of the gateway share.
pub mod Types
pub mod Pending
pub mod RequestRoutes
pub mod Sessions
pub mod Readiness
pub mod Dispatch
pub mod RelayContexts
pub mod RelayLimits
pub mod RelayAuth
pub mod Invariant
pub mod Tests
pub mod SessionTests
