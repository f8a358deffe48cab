-- ===== src/Cognition.antt =====
-- cognition/: the first analysis of a session (intake) and its preferences (vibe).
pub mod Vibe
pub mod Intake
