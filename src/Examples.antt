-- ===== src/Examples.antt =====
-- Concrete values on which the theorems and the definitions are tried.
pub mod Scoring
pub mod Bus
pub mod Detectors
pub mod Conditions
pub mod Consumer
pub mod Quarantine
pub mod Watchdog
pub mod VirusTotal
pub mod Kernel
pub mod Responses
pub mod Canary
pub mod Sandbox
pub mod Classifier
pub mod Reports
pub mod Memory
pub mod Scanner
use sentinel_antivirus.Prelude.{none, [], codes}
use sentinel_antivirus.Builtins.{Python}
use sentinel_antivirus.Schema.{Event, Extra}
use sentinel_antivirus.Prelude.{ℕ, Text, some}

-- Texts are kept as they are, and none is a number.
abbrev pub plain_python : Python
plain_python = record {
  lower = λ t. t;
  strip = λ t. t;
  float_text = λ n. [];
  parse_int = λ t. none;
  parse_float = λ t. none;
}

abbrev pub event : Text → Text → ℕ → Extra → Event
event source event_type pid extra = record {
  timestamp = codes "2026-07-16T10:22:31.000Z";
  source = source;
  event_type = event_type;
  pid = some pid;
  parent_pid = none;
  image_path = some (codes "/tmp/a");
  command_line = none;
  hash_sha256 = none;
  extra = extra;
}
