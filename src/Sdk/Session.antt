-- ===== src/Sdk/Session.antt =====
-- session.ts: `ReportSession`.
pub mod Model
pub mod Write
pub mod Lifecycle
pub mod Attach
pub mod Recorded
pub mod Order
pub mod Sound
pub mod Calls
pub mod Keep
pub mod Told
pub mod Silent
pub mod Reported
pub mod Rounds
pub mod Escapes
pub mod Exceptions
pub mod Results
