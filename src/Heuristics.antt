-- ===== src/Heuristics.antt =====
-- The stateful detectors of sentinel/engine/heuristics_*.py.
pub mod Window
pub mod BruteForce
pub mod Ransomware
pub mod Network
pub mod Mining
