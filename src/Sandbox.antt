-- ===== src/Sandbox.antt =====
-- sentinel/sandbox/emulator.py: the memory of the emulator, its tracked calls, and the rating of a
-- run.
pub mod Memory
pub mod Emulator
pub mod Report
pub mod Runner
