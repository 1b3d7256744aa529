-- ===== src/Kernel.antt =====
-- sentinel/kernel/bridge.py: the hash blocklist, and the bridge to the minifilter driver.
pub mod Blocklist
pub mod Bridge
