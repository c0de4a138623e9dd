-- ===== src/Functions/Invariant.antt =====
-- Invariants of the system in Functions/System.antt, each kept by every step.
pub mod Defs
pub mod Moves
