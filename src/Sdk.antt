-- ===== src/Sdk.antt =====
-- The TypeScript SDK that records a session (ts/packages/sdk/src).
pub mod Redactor
pub mod Envelope
pub mod MediaTypes
pub mod SafeName
pub mod SafeStem
pub mod FileSink
pub mod Stored
mod SinkTests
pub mod Session
pub mod Tests
