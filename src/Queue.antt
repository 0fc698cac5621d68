-- ===== src/Queue.antt =====
-- The offline queue of the 1:1 and legacy group messages: app/services/queue_drain.py and the queue
-- half of app/routers/messages.py.
pub mod Tables
pub mod Drain
pub mod Ack
pub mod Reap
pub mod Endpoints
pub mod Prefix
pub mod Cursors
pub mod Survivors
pub mod Advance
pub mod NoLoss
pub mod Liveness
pub mod Races
pub mod Stale
pub mod NewDevice
mod Tests
