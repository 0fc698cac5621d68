-- ===== src/RoomLog.antt =====
-- The log of a room: counters, cursors, readers and the ack (app/services/group_log.py,
-- app/routers/messages.py).
pub mod Counters
pub mod Cursors
pub mod Readers
pub mod Ack
pub mod Rows
pub mod Page
pub mod Fetch
pub mod Numbers
pub mod Forward
pub mod Acked
pub mod Joined
mod Tests
mod PageTests
mod FetchTests
pub mod Legacy
