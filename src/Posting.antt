-- ===== src/Posting.antt =====
-- Posting into a room: who a row is kept for, the account-age gate and the slow mode
-- (app/routers/messages.py).
pub mod Keep
pub mod AgeGate
pub mod SlowKeys
pub mod SlowMode
pub mod SlowCount
pub mod SlowSpent
pub mod SlowTracks
pub mod SlowSold
pub mod SlowRun
pub mod SlowAlbum
pub mod SlowWhole
pub mod Kept
pub mod Waited
mod Tests
mod SlowTests
