-- ===== src/Session.antt =====
-- src/pi_agent/harness/session: the append-only conversation tree, its stores and its manager.
pub mod Types
pub mod Codec
pub mod Store
pub mod Jsonl
pub mod Tree
pub mod Chain
pub mod Valid
pub mod Manager
pub mod Context
