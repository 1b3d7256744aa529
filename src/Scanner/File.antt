-- ===== src/Scanner/File.antt =====
-- `scan_file` of sentinel/engine/scanner.py, layer by layer, and the automatic quarantine
use sentinel_antivirus.Prelude.{
  ℕ, ◌*◌, Bool, true, ◌&&◌, ◌||◌, not, Option, none, some, List, [], ◌∷◌, ◌++◌, leb, if◌then◌else◌,
  ◌==◌, nat_eq, pair_eq, Text, codes, text_eq, starts_with, contains_text, first,
}
use sentinel_antivirus.Dict.{member}
use sentinel_antivirus.Result.{Result, ok, err}
use mathlib.Core.Option
use sentinel_antivirus.VirusTotal.Client.{
  Client, malicious, clean, unknown, HashVerdict, lookup_hash,
}
use sentinel_antivirus.StaticClassifier.{Request}
use sentinel_antivirus.Sandbox.Emulator.{evaluate_risk}
use sentinel_antivirus.Sandbox.Report.{SandboxReport, emulation_report, is_malicious, is_suspicious}
use sentinel_antivirus.Quarantine
use sentinel_antivirus.Quarantine.{Os, Store, QuarantineRecord}
use sentinel_antivirus.Scanner.Sample.{
  or_else, lower, critical, medium, executable_extensions, lower_suffix, system_ignore_files, high,
  threat_of, ThreatSeverity, Sample, ThreatDetection, ScanTools,
}
use sentinel_antivirus.Scanner.Program.{double_extension_threat, is_self_binary, program_threat}

-- The parts of `OnDemandScanner` that `scan_file` uses
pub record Scanner (Kernel : Type 0) : Type 0 where
  pub vt : Option Client
  pub quarantine_store : Option (Store Kernel)
  pub auto_quarantine : Bool
  pub read_only_mode : Bool
  pub dynamic_analysis : Bool

-- `sb_report.risk_score or 85.0`
abbrev pub score_or : ℕ → ℕ
score_or risk = if risk == 0 then 850000 else risk * 10000

-- The name and the severity that unpacked signatures give
abbrev pub rule_of : List Text → Text × ThreatSeverity
rule_of [] = (codes "DynamicMalware", high)
rule_of (rule ∷ rules) = (rule, critical)

module _ (os : ScanTools) where
  -- 1. The first YARA rule that matches
  unfoldable pub yara_threat : Sample → Option ThreatDetection
  yara_threat f = elim (os.classifier.yara_scan f.bytes) [
    | [] ↦ none
    | ◌∷◌ rule rules ↦ some (
        threat_of f (codes "YARA:" ++ rule) 900000
          (if contains_text (lower os rule) (codes "eicar")
              || contains_text (lower os rule) (codes "ransom")
            then critical
            else high)
          (codes "yara_scanner"))
  ]

  -- 2. What VirusTotal says
  unfoldable pub vt_threat : Sample → Option HashVerdict → Option ThreatDetection
  vt_threat f none = none
  vt_threat f (some v) = elim v.verdict [
    | malicious ↦ some (threat_of f (codes "VirusTotal:Malicious") 850000 high (codes "virustotal"))
    | clean ↦ none
    | unknown ↦ none
  ]

  -- What a report of the sandbox gives
  unfoldable pub report_threat : Sample → SandboxReport → Option ThreatDetection
  report_threat f r =
      if is_malicious os.host.py r
      then some (
          threat_of f (codes "Sandbox:" ++ (rule_of r.unpacked_yara_matches).0)
            (score_or r.risk_score) (rule_of r.unpacked_yara_matches).1 (codes "dynamic_sandbox"))
      else if is_suspicious os.host.py r && leb 35 r.risk_score
      then some (
          threat_of f (codes "Sandbox:SuspiciousBehavior") (r.risk_score * 10000) medium
            (codes "dynamic_sandbox"))
      else none

  abbrev pub is_exec_format : Sample → Bool
  is_exec_format f =
      (member (lower_suffix os f) executable_extensions || starts_with f.bytes (codes "MZ"))
      || starts_with f.bytes (127 ∷ codes "ELF")

  -- `emulate_binary` of the runner, where the emulator does not raise
  unfoldable pub emulate_binary : Sample → Option SandboxReport
  emulate_binary f =
      Option.map (λ r. emulation_report os.host f.path r.1 (evaluate_risk r.0))
        (os.emulate f.path f.bytes)

  -- 4. The sandbox
  unfoldable pub sandbox_threat : Bool → Sample → Option ThreatDetection
  sandbox_threat dynamic_analysis f =
      if dynamic_analysis && (is_exec_format f && not (is_self_binary os f))
      then elim (emulate_binary f) [ none ↦ none | some r ↦ report_threat f r ]
      else none

  -- The layers after VirusTotal
  unfoldable pub local_threat : Bool → Sample → Option ThreatDetection
  local_threat dynamic_analysis f =
      or_else (double_extension_threat os f)
        (or_else (program_threat os f) (sandbox_threat dynamic_analysis f))

  -- The question to VirusTotal, where there is a client
  unfoldable pub ask_vt :
      Request → Sample → Option Client → Option (Option HashVerdict × Option Client)
  ask_vt q f none = some (none, none)
  ask_vt q f (some client) =
      Option.map {B = Option HashVerdict × Option Client} (λ r. (r.verdict, some r.client))
        (lookup_hash os.classifier.py q.chance q.answer q.now f.sha256 client)

  -- What the layers find; there is no result only if the lookup has none.
  unfoldable pub find_threat :
      Request → Bool → Sample → Option Client → Option (Option ThreatDetection × Option Client)
  find_threat q dynamic_analysis f vt = elim (yara_threat f) [
    | some t ↦ some (some t, vt)
    | none ↦
        Option.map {B = Option ThreatDetection × Option Client}
          (λ a. (or_else (vt_threat f a.0) (local_threat dynamic_analysis f), a.1)) (ask_vt q f vt)
  ]

  -- The file that `scan_file` looks at, if it does
  unfoldable pub sample_of : Text → Option Sample
  sample_of path =
      let file_path = os.resolve path in
      if not (os.is_file file_path)
        || member (os.classifier.py.lower (os.classifier.file_name file_path)) system_ignore_files
      then none
      else Option.map
          (λ bytes. record {
            path = file_path;
            bytes = bytes;
            sha256 = os.classifier.sha256_hex bytes;
          })
          (os.classifier.read_bytes file_path)

-- The arguments of `add`, with what it takes of the system. The text of the reason is left out. The
-- store only keeps the score, which has the unit of the detection.
abbrev pub quarantine_request : Quarantine.Request → ThreatDetection → Quarantine.Request
quarantine_request q t = record q {
  source_path = t.file_path;
  subject = codes "file:" ++ first 16 t.sha256;
  score = t.score;
  source_signals = [];
}

-- What `add` gives, written into the detection; what it raises stops here.
abbrev pub note_record : Result (Option QuarantineRecord) → ThreatDetection → ThreatDetection
note_record (ok (some r)) t = record t { quarantined = true; quarantine_id = some r.id }
note_record (ok none) t = t
note_record (err e) t = t

module _ {Kernel : Type 0} (os : ScanTools) (qos : Os Kernel) where
  -- The automatic quarantine
  unfoldable pub quarantine_threat :
      Quarantine.Request → ThreatDetection → Scanner Kernel → ThreatDetection × Scanner Kernel
  quarantine_threat q t s = elim s.quarantine_store [
    | none ↦ (t, s)
    | some store ↦
        if not ((not t.is_memory && not s.read_only_mode) && s.auto_quarantine)
        then (t, s)
        else let (added, store') = Quarantine.add qos (quarantine_request q t) store in
          (note_record added t, record s { quarantine_store = some store' })
  ]

  abbrev pub finish :
      Quarantine.Request
      → Scanner Kernel
      → Option ThreatDetection × Option Client
      → Option ThreatDetection × Scanner Kernel
  finish q s (none, vt) = (none, record s { vt = vt })
  finish q s (some t, vt) =
      let (t', s') = quarantine_threat q t (record s { vt = vt }) in (some t', s')

  -- `scan_file`
  unfoldable pub scan_file :
      Request
      → Quarantine.Request
      → Text
      → Scanner Kernel
      → Option (Option ThreatDetection × Scanner Kernel)
  scan_file q r path s = elim (sample_of os path) [
    | none ↦ some (none, s)
    | some f ↦
        Option.map {B = Option ThreatDetection × Scanner Kernel} (finish r s)
          (find_threat os q s.dynamic_analysis f s.vt)
  ]
