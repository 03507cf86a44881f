-- ===== src/Contracts.antt =====
-- engine/contracts: the data that the parts of the engine exchange, and its validation.
pub mod Primitives
pub mod Paths
pub mod Review
pub mod Events
pub mod Source
