-- ===== src/Agent.antt =====
-- src/pi_agent/agent: what the agent loop keeps between its turns.
pub mod Types
pub mod Queues
pub mod Loop
pub mod Schema
