-- ===== src/SocialListener.antt =====
-- social-listener: posts of a channel become position changes of one asset, and those become orders.
pub mod Legs
pub mod Post
pub mod Levels
pub mod Decision
pub mod Plan
pub mod Manage
pub mod Gate
pub mod Emitter
pub mod PostLock
mod Examples
mod OrderExamples
