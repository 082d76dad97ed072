-- ===== src/Tests.antt =====
-- Runs of the components on concrete data.
pub mod Conversation
pub mod Sessions
pub mod Contexts
pub mod Truncation
pub mod Compactions
pub mod Approvals
pub mod Streams
pub mod Codecs
pub mod Runs
pub mod Edits
