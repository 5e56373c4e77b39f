-- ===== src/Cmux.antt =====
-- The adapter for sessions in cmux panes, plugins/cmux.
pub mod Journal
pub mod Injector
pub mod Outcome
pub mod Patterns
pub mod Calls
pub mod Json
pub mod Outbox
pub mod Marker
pub mod Protocol
pub mod Emitter
pub mod Producer
pub mod Resident
pub mod Harness
pub mod Translation
pub mod Notifications
