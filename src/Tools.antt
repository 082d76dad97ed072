-- ===== src/Tools.antt =====
-- The coding tools: src/pi_agent/harness/tools/.
pub mod Edit
