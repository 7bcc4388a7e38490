-- ===== src/OrderListener.antt =====
-- order-listener: the intake of orders, their symbols and stops, and the ledger of positions.
pub mod StopRevalidation
pub mod GuaranteedStop
pub mod Webhook
pub mod Ledger
pub mod Process
pub mod Manual
pub mod Reconciler
pub mod SymbolValidator
pub mod SymbolFactory
mod Examples
mod WebhookExamples
mod LedgerExamples
mod ClosingExamples
mod ProcessExamples
