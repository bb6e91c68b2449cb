-- ===== src/Client.antt =====
-- The client that uploads run directories: ts/packages/http-client/src.
pub mod Retry
pub mod Answer
pub mod Delivery
pub mod Bounds
pub mod Counted
mod Tests
