-- ===== src/Ai.antt =====
-- src/pi_agent/ai: the provider-neutral data that all other parts exchange.
pub mod EventStream
pub mod Codec
pub mod Events
pub mod Json
pub mod Types
