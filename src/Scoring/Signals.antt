-- ===== src/Scoring/Signals.antt =====
-- `WEIGHTS`, `Signal`, `SubjectScore` of sentinel/engine/scoring.py. A score is a whole number, as
-- each weight of the program is; a time is a number of milliseconds.
use sentinel_antivirus.Prelude.{
  ℕ, ◌+◌, Bool, Option, none, some, List, [], ◌∷◌, ◌++◌, map, if◌then◌else◌, nat_eq, pair_eq, sum,
  Text, codes, text_eq, starts_with, decimal,
}
use sentinel_antivirus.Dict.{Dict, lookup, add}

abbrev pub weights : Dict Text ℕ
weights =
    (codes "rule_match_high", 40)
    ∷ (codes "rule_match_medium", 20)
    ∷ (codes "rule_match_low", 10)
    ∷ (codes "dll_cross_process", 25)
    ∷ (codes "dll_reflective", 45)
    ∷ (codes "dll_unsigned", 10)
    ∷ (codes "dll_abnormal_host", 15)
    ∷ (codes "cpu_sustained", 30)
    ∷ (codes "stratum_network", 30)
    ∷ (codes "entropy_spike", 30)
    ∷ (codes "mass_modification", 30)
    ∷ (codes "canary_tripped", 85)
    ∷ (codes "failed_login_burst", 25)
    ∷ (codes "yara_match", 85)
    ∷ (codes "vt_positive", 50)
    ∷ (codes "vt_unknown_suspicious_pe", 15)
    ∷ (codes "pe_masquerade", 85)
    ∷ (codes "pe_double_extension", 85)
    ∷ (codes "suspicious_parent_child", 20)
    ∷ (codes "memory_unbacked_exec", 45)
    ∷ (codes "memory_shellcode", 80)
    ∷ (codes "memory_hollowing", 85)
    ∷ (codes "c2_beaconing", 40)
    ∷ (codes "c2_threat_intel", 85)
    ∷ (codes "sandbox_malicious", 85)
    ∷ (codes "sandbox_suspicious", 35)
    ∷ (codes "sandbox_unpacked_yara", 90)
    ∷ (codes "sandbox_injection_chain", 75)
    ∷ (codes "sandbox_rwx_unpack", 50)
    ∷ (codes "sandbox_evasion_detected", 35)
    ∷ []

-- The text of `reason` is left out: nothing is decided by it.
pub record Signal : Type 0 where
  pub kind : Text
  pub subject : Text
  pub weight : Option ℕ
  pub engine : Text
  pub timestamp : ℕ

-- `Signal(kind=…, subject=…, engine=…)`: no weight of its own, and `__post_init__` stamps it.
abbrev pub new_signal : ℕ → Text → Text → Text → Signal
new_signal now kind subject engine = record {
  kind = kind;
  subject = subject;
  weight = none;
  engine = engine;
  timestamp = now;
}

-- `WEIGHTS.get(kind, 0.0)`
unfoldable pub default_weight : Text → ℕ
default_weight kind = elim (lookup kind weights) [ none ↦ 0 | some w ↦ w ]

unfoldable pub effective_weight : Signal → ℕ
effective_weight s = elim s.weight [ some w ↦ w | none ↦ default_weight s.kind ]

abbrev pub pid_prefix : Text
pid_prefix = codes "pid:"

-- `format_pid_subject`
unfoldable pub format_pid_subject : ℕ → Option ℕ → Text
format_pid_subject pid none = pid_prefix ++ decimal pid
format_pid_subject pid (some start) = pid_prefix ++ (decimal pid ++ b':' ∷ decimal start)

abbrev pub dll_prefix : Text
dll_prefix = codes "dll_"

-- `s.kind.startswith("dll_")`
abbrev pub is_dll : Signal → Bool
is_dll s = starts_with s.kind dll_prefix

pub record SubjectScore : Type 0 where
  pub subject : Text
  pub total : ℕ
  pub signals : List Signal
  pub dll_components : List Text
  pub created_at : ℕ
  pub last_updated : ℕ

-- `SubjectScore(subject)`
abbrev pub empty_score : ℕ → Text → SubjectScore
empty_score now subject = record {
  subject = subject;
  total = 0;
  signals = [];
  dll_components = [];
  created_at = now;
  last_updated = now;
}

-- `SubjectScore.add`
unfoldable pub add_to : SubjectScore → Signal → SubjectScore
add_to c sig = record c {
  signals = c.signals ++ sig ∷ [];
  total = c.total + effective_weight sig;
  dll_components = if is_dll sig then add sig.kind c.dll_components else c.dll_components;
  last_updated = sig.timestamp;
}

-- `sum(s.effective_weight for s in signals)`
abbrev pub total_weight : List Signal → ℕ
total_weight ss = sum (map effective_weight ss)

-- `{s.kind for s in signals if s.kind.startswith("dll_")}`
unfoldable pub dll_kinds : List Signal → List Text
dll_kinds [] = []
dll_kinds (s ∷ ss) = let rest = dll_kinds ss in if is_dll s then add s.kind rest else rest
