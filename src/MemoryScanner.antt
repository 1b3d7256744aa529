-- ===== src/MemoryScanner.antt =====
-- `MemoryScanner` of sentinel/engine/memory_scanner.py: the regions of a process that hold injected
-- code, on Windows, Linux and macOS.
pub mod Patterns
pub mod Region
pub mod Managed
pub mod Loops
pub mod Scan
pub mod Header
pub mod Ends
pub mod Threats
pub mod Response
