-- ===== src/Rules.antt =====
-- sentinel/engine/rule_engine.py: the Sigma-style rules.
pub mod Match
pub mod Condition
pub mod Engine
