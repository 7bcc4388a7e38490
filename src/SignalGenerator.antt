-- ===== src/SignalGenerator.antt =====
-- ai-signal-generator: the pool of LLM keys, the cycle lock, the scheduling and routing helpers.
pub mod KeyPool
pub mod CycleLock
pub mod Scheduling
pub mod Gating
mod Examples
