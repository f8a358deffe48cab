-- ===== src/Evolution.antt =====
-- evolution/: what the system proposes about itself.
pub mod Feedback
pub mod Shadow
pub mod Evolve
mod Examples
