-- ===== src/Uin.antt =====
-- Numbers: their shapes, and who holds them (app/services/uin.py).
pub mod Digits
pub mod Shape
pub mod Taken
pub mod SpokenFor
pub mod Allocate
pub mod Scarce
mod Tests
