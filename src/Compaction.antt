-- ===== src/Compaction.antt =====
-- src/pi_agent/harness/compaction: replacing the old part of a conversation by a summary.
pub mod Tokens
pub mod Cut
pub mod Prepare
pub mod Compact
pub mod Session
pub mod Branch
