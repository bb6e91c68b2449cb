-- ===== src/Validator.antt =====
-- The run validator (ts/packages/validator/src/validator.ts).
pub mod Model
pub mod Externals
pub mod Canonical
pub mod Decode
pub mod Executions
pub mod Events
pub mod Feed
pub mod FileSystem
pub mod Attachments
pub mod Finish
pub mod Directory
pub mod Hoare
pub mod Validity
pub mod Beside
pub mod Brackets
pub mod Complete
pub mod Repeated
pub mod Highest
pub mod Finals
pub mod Sequences
pub mod Reading
pub mod Results
pub mod Tests
