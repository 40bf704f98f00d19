-- ===== src/Tests.antt =====
-- Concrete runs of the models, and the theorems at concrete inputs.
mod Samples
mod Vectors
mod Members
mod Graphs
mod Conversations
mod Stores
mod Orders
mod Files
mod Managers
