-- ===== src/Security.antt =====
-- src/pi_agent/security: the policy for tool calls and the approvals of a session.
pub mod Types
pub mod Policy
pub mod Approval
pub mod Console
