-- ===== src/Control.antt =====
-- engine/control: the durable jobs, over the tables of the database.
pub mod Tables
pub mod Tx
pub mod State
pub mod Reservations
pub mod Cleanup
pub mod Worker
pub mod Reconciler
pub mod Service
pub mod Samples
mod Tests
