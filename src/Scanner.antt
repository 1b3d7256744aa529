-- ===== src/Scanner.antt =====
-- `OnDemandScanner` of sentinel/engine/scanner.py: what it finds in a file, which files it looks
-- at, and how a scan is paused and cancelled.
pub mod Sample
pub mod Program
pub mod File
pub mod Layers
pub mod Quarantining
pub mod Control
pub mod Scan
pub mod Runs
pub mod Reached
pub mod ReadOnly
pub mod Targets
pub mod Coverage
