-- ===== src/SignalEngine.antt =====
-- signal-engine: the exits of one open bracket position.
pub mod Bracket
mod Examples
