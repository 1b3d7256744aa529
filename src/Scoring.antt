-- ===== src/Scoring.antt =====
-- sentinel/engine/scoring.py: signals and their weights, the DLL load rules, and the scorer.
pub mod Signals
pub mod Weights
pub mod Dll
pub mod Scorer
