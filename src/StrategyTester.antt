-- ===== src/StrategyTester.antt =====
-- strategy-tester: the replay of a strategy over candles.
pub mod Positions
pub mod Engine
pub mod Guard
mod Examples
