-- ===== src/Protocol.antt =====
-- The protocol binding (ts/packages/protocol/src): the event model, the version rule, and the
-- codec between JSON values and events.
pub mod Json
pub mod Model
pub mod Errors
pub mod Version
pub mod Patterns
pub mod Codec
mod Tests
