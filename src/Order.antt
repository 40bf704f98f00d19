-- ===== src/Order.antt =====
-- The ordering layers of order/ on top of a conversation.
pub mod Total
pub mod Semantic
