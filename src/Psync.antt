-- ===== src/Psync.antt =====
-- The psync package: vector clocks, the membership view and the context graph.
pub mod Vector
pub mod Membership
pub mod Graph
pub mod Stability
pub mod Mask
pub mod Conversation
