-- ===== src/Guest.antt =====
-- The guest set (app/core/guest_policy.py) and its mirror in Redis (app/core/single_flight.py): marks,
-- unmarks, rebuilds and reads. Times are in seconds. The table of accounts is seen through the
-- numbers of its guest rows.
pub mod Mirror
pub mod Steps
mod Marked
pub mod Kept
pub mod Closed
pub mod Admission
mod Tests
