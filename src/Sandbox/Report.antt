-- ===== src/Sandbox/Report.antt =====
-- `SandboxReport` of sentinel/sandbox/runner.py: the report on a run of a program, emulated or
-- isolated, its verdicts and its signals. Entropies are ten-thousandths of a bit, times and counts
-- of instructions are left out.
pub mod Laws
use sentinel_antivirus.Prelude.{
  ℕ, Bool, false, ◌&&◌, ◌||◌, not, Option, none, some, List, [], ◌∷◌, ◌++◌, map, ltb, leb,
  if◌then◌else◌, ◌==◌, nat_eq, length, any_of, is_empty, Text, codes, text_eq, contains_text,
  decimal,
}
use sentinel_antivirus.Result.{Result}
use sentinel_antivirus.Builtins.{Python}
use sentinel_antivirus.Scoring.Signals.{Signal, pid_prefix}
use sentinel_antivirus.Sandbox.Emulator.{
  Category, general, anti_debug, timing, memory, injection, ApiCallRecord, EmulationResult,
}

pub data Mode : Type 0 where
  emulation detonation hybrid : Mode

-- An entry of `findings`
pub record Finding : Type 0 where
  pub category : Text
  pub detail : Text
  pub severity : Text

-- `SandboxReport`; `failed` is an exit code other than 0.
pub record SandboxReport : Type 0 where
  pub target_path : Text
  pub failed : Bool
  pub analysis_mode : Mode
  pub files_created : List Text
  pub dropped_executables : List Text
  pub max_entropy_observed : ℕ
  pub threat_reasons : List Text
  pub timed_out : Bool
  pub findings : List Finding
  pub api_calls : List ApiCallRecord
  pub evasion_techniques : List Text
  pub unpacked_yara_matches : List Text
  pub rwx_allocations : ℕ
  pub risk_score : ℕ

-- A file that the isolated program left behind: whether it is the staged program itself, its path
-- in the workspace, its suffix, and its entropy and size where it can be read
pub record Artifact : Type 0 where
  pub is_target : Bool
  pub rel_name : Text
  pub suffix : Text
  pub measured : Option (ℕ × ℕ)

-- How `run_isolated` ends
pub record Exit : Type 0 where
  pub failed : Bool
  pub timed_out : Bool

-- What the runner uses of Python and of the system: `path.resolve()`, `path.name`, `path.exists()`,
-- the directory that `mkdtemp` makes, whether the copy raises, whether a directory withstands its
-- removal, how the run ends, and the files that it leaves; `round(x, 2)` of an entropy, and its text
-- with two digits
pub record Host : Type 0 where
  pub py : Python
  pub resolve : Text → Text
  pub file_name : Text → Text
  pub exists : Text → Bool
  pub temp_dir : Text
  pub copy_denied : Text → Text → Bool
  pub is_left : Text → Bool
  pub run_isolated : Text → List Text → Result Exit
  pub files_of : Text → List Text → List Artifact
  pub round2 : ℕ → ℕ
  pub entropy_text : ℕ → Text

-- The words that a malicious reason holds
abbrev pub malicious_words : List Text
malicious_words = codes "malicious" ∷ codes "ransomware" ∷ codes "dropped" ∷ []

-- `any(word in reason.lower() for word in words)`
unfoldable pub mentions : Python → List Text → Text → Bool
mentions py words reason = any_of (λ word. contains_text (py.lower reason) word) words

module _ (py : Python) where
  -- `is_malicious`
  unfoldable pub is_malicious : SandboxReport → Bool
  is_malicious r =
      not (is_empty r.dropped_executables)
      || leb 76000 r.max_entropy_observed
      || not (is_empty r.unpacked_yara_matches)
      || leb 75 r.risk_score
      || any_of (mentions py malicious_words) r.threat_reasons

  -- `is_suspicious`
  unfoldable pub is_suspicious : SandboxReport → Bool
  is_suspicious r =
      is_malicious r
      || ltb 3 (length r.files_created)
      || not (is_empty r.evasion_techniques)
      || ltb 0 r.rwx_allocations
      || leb 35 r.risk_score
      || not (is_empty r.threat_reasons)

-- `file:` and the name of the file, or the process, where its number is given and not 0
unfoldable pub report_subject : Host → Option ℕ → SandboxReport → Text
report_subject host none r = codes "file:" ++ host.file_name r.target_path
report_subject host (some pid) r =
    if pid == 0 then codes "file:" ++ host.file_name r.target_path else pid_prefix ++ decimal pid

-- `Signal(kind=…, subject=…, engine="sandbox", weight=…)`
abbrev sandbox_signal : ℕ → Text → Text → ℕ → Signal
sandbox_signal now subject kind weight = record {
  kind = kind;
  subject = subject;
  weight = some weight;
  engine = codes "sandbox";
  timestamp = now;
}

-- The first two rules of `to_signals`
unfoldable pub verdict_signal : Python → ℕ → Text → SandboxReport → List Signal
verdict_signal py now subject r =
    if not (is_empty r.unpacked_yara_matches)
    then sandbox_signal now subject (codes "sandbox_unpacked_yara") 90 ∷ []
    else if is_malicious py r
    then sandbox_signal now subject (codes "sandbox_malicious") 85 ∷ []
    else []

-- The third rule
unfoldable pub evasion_signal : ℕ → Text → SandboxReport → List Signal
evasion_signal now subject r =
    if is_empty r.evasion_techniques
    then []
    else sandbox_signal now subject (codes "sandbox_evasion_detected") 35 ∷ []

-- `to_signals`
unfoldable pub to_signals : Host → ℕ → Option ℕ → SandboxReport → List Signal
to_signals host now pid r =
    let subject = report_subject host pid r in
    let signals = verdict_signal host.py now subject r ++ evasion_signal now subject r in
    if (is_suspicious host.py r && not (is_malicious host.py r)) && is_empty signals
    then sandbox_signal now subject (codes "sandbox_suspicious") 35 ∷ []
    else signals

unfoldable pub category_text : Category → Text
category_text general = codes "general"
category_text anti_debug = codes "anti_debug"
category_text timing = codes "timing"
category_text memory = codes "memory"
category_text injection = codes "injection"

abbrev api_finding : ApiCallRecord → Finding
api_finding call = record {
  category = codes "API";
  detail =
      codes "Called "
      ++ (call.api_name ++ (codes " (" ++ (category_text call.category ++ codes ")")));
  severity = codes "MEDIUM";
}

abbrev evasion_finding : Text → Finding
evasion_finding ev = record { category = codes "Evasion"; detail = ev; severity = codes "HIGH" }

abbrev yara_finding : Text → Finding
yara_finding rule = record {
  category = codes "YARA";
  detail = codes "Unpacked signature: " ++ rule;
  severity = codes "CRITICAL";
}

-- The report of `emulate_binary` on what the emulator gives; `failed` is whether it has an error.
unfoldable pub emulation_report : Host → Text → Bool → EmulationResult → SandboxReport
emulation_report host path failed res = record {
  target_path = host.resolve path;
  failed = failed;
  analysis_mode = emulation;
  files_created = [];
  dropped_executables = [];
  max_entropy_observed = 0;
  threat_reasons = res.threat_reasons;
  timed_out = false;
  findings =
      map api_finding res.api_calls
      ++ (map evasion_finding res.evasion_techniques ++ map yara_finding res.unpacked_yara_matches);
  api_calls = res.api_calls;
  evasion_techniques = res.evasion_techniques;
  unpacked_yara_matches = res.unpacked_yara_matches;
  rwx_allocations = res.rwx_allocations;
  risk_score = res.risk_score;
}
