-- ===== src/Titan.antt =====
-- The Titan upstream: src/titan_quote.rs (the messages, the quotes and the size board) and
-- src/upstream/titan.rs (the session and the reconnect loop).
pub mod Value
pub mod Sizes
pub mod Registry
pub mod Route
pub mod Quote
pub mod Board
pub mod Message
pub mod Request
pub mod Session
pub mod Live
mod Tests
