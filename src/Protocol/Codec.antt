-- ===== src/Protocol/Codec.antt =====
-- codec.ts: reading an event from a JSON value and writing it back.
pub mod Fields
pub mod Parts
pub mod Read
pub mod Write
pub mod Built
pub mod Lists
pub mod FailuresBack
pub mod PartsBack
pub mod SessionsBack
pub mod StepsBack
pub mod PayloadsBack
pub mod RoundTrip
