-- ===== src/OrderExecutor.antt =====
-- order-executor: the two-legged trades of spread_trade.py.
pub mod Spread
mod SpreadExamples
