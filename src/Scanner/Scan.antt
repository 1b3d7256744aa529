-- ===== src/Scanner/Scan.antt =====
-- `execute_scan` of sentinel/engine/scanner.py with one worker, as steps between which other
-- threads may call `cancel`, `pause` and `resume`. The clock and the texts for the user are left
-- out.
use sentinel_antivirus.Prelude.{
  ℕ, ◌+◌, Bool, true, false, ◌||◌, not, Option, none, some, List, [], ◌∷◌, ◌++◌, if◌then◌else◌,
  nat_eq, pair_eq, length, is_empty, Text, codes, text_eq, decimal,
}
use sentinel_antivirus.Result.{Result, ok, err}
use sentinel_antivirus.MemoryScanner.Region.{
  MemoryThreat, ThreatType, unbacked_executable, shellcode_signature, reflective_pe,
  process_hollowing,
}
use sentinel_antivirus.Scanner.Sample.{ThreatDetection, ThreatSeverity, high, critical}
use sentinel_antivirus.Scanner.Control.{
  ScanStatus, completed, cancelled, error, Control, cancel, pause, resume, begin, final_status,
}

pub data ScanType : Type 0 where
  quick full custom : ScanType

-- `ScanProgress` with the list of threats
pub record Progress : Type 0 where
  pub files_scanned : ℕ
  pub bytes_scanned : ℕ
  pub threats_found : ℕ
  pub threats : List ThreatDetection

abbrev pub no_progress : Progress
no_progress = record { files_scanned = 0; bytes_scanned = 0; threats_found = 0; threats = [] }

-- `ScanSummary`
pub record ScanSummary : Type 0 where
  pub scan_type : ScanType
  pub status : ScanStatus
  pub files_scanned : ℕ
  pub threats_found : ℕ
  pub threats : List ThreatDetection

-- `threats.append(t)` and `progress.threats_found += 1`
unfoldable pub note_threat : ThreatDetection → Progress → Progress
note_threat t p = record p { threats = p.threats ++ t ∷ []; threats_found = p.threats_found + 1 }

-- What a threat in the memory of a process counts as, if it passes the gate of the quick scan
unfoldable pub memory_severity : ThreatType → Option ThreatSeverity
memory_severity reflective_pe = some critical
memory_severity shellcode_signature = some high
memory_severity unbacked_executable = none
memory_severity process_hollowing = none

abbrev kind_text : ThreatType → Text
kind_text unbacked_executable = codes "unbacked_executable"
kind_text shellcode_signature = codes "shellcode_signature"
kind_text reflective_pe = codes "reflective_pe"
kind_text process_hollowing = codes "process_hollowing"

unfoldable pub memory_detection : MemoryThreat → ThreatSeverity → ThreatDetection
memory_detection t severity = record {
  file_path =
      codes "[Memory: " ++ (t.process_name ++ (codes " (PID " ++ (decimal t.pid ++ codes ")]")));
  sha256 = [];
  threat_name = codes "Memory." ++ kind_text t.threat_type;
  score = 900000;
  severity = severity;
  engine = codes "memory_scanner";
  quarantined = false;
  quarantine_id = none;
  is_memory = true;
  process_id = t.pid;
}

-- The loop over the threats in memory; a callback that raises ends it.
unfoldable pub note_memory : (ThreatDetection → Bool) → List MemoryThreat → Progress → Progress
note_memory raises [] p = p
note_memory raises (t ∷ ts) p = elim (memory_severity t.threat_type) [
  | none ↦ note_memory raises ts p
  | some severity ↦
      let d = memory_detection t severity in
      let later = note_memory raises ts (note_threat d p) in
      if raises d then note_threat d p else later
]

-- Where the loop over the files stands: before the next file is fetched, with a file that waits for
-- `_pause_event`, or behind its end
pub data Phase : Type 0 where
  fetching holding : Phase
  over : ScanSummary → Phase

-- A scan that runs, with the files that are not scanned yet; S is what `scan_file` works on.
pub record Run (S : Type 0) : Type 0 where
  pub scan_type : ScanType
  pub control : Control
  pub phase : Phase
  pub remaining : List Text
  pub progress : Progress
  pub scanner : S

-- What happens next: a call of another thread, or a step of the scan
pub data Move : Type 0 where
  call_cancel call_pause call_resume advance : Move

unfoldable pub summary_of : ScanType → ScanStatus → Progress → ScanSummary
summary_of kind status p = record {
  scan_type = kind;
  status = status;
  files_scanned = p.files_scanned;
  threats_found = length p.threats;
  threats = p.threats;
}

module _ {S : Type 0} where
  -- The end of `execute_scan`
  unfoldable pub finish : ScanStatus → Run S → Run S
  unfolding final_status summary_of
  finish status r =
      let end = final_status status r.control in
      record r {
        control = record (r.control) { status = end };
        phase = over (summary_of r.scan_type end r.progress);
      }

  -- A quick scan before its loop: the first call of the progress callback, and the threats in
  -- memory, `none` where looking for them raises
  unfoldable pub look_at_memory :
      Bool → (ThreatDetection → Bool) → Option (List MemoryThreat) → Run S → Run S
  look_at_memory true raises memory r = finish error r
  look_at_memory false raises none r = r
  look_at_memory false raises (some ts) r = record r { progress = note_memory raises ts r.progress }

  -- The scan of a type before its loop
  unfoldable pub prepare :
      ScanType → Bool → (ThreatDetection → Bool) → Option (List MemoryThreat) → Run S → Run S
  unfolding look_at_memory
  prepare quick progress_raises raises memory r = look_at_memory progress_raises raises memory r
  prepare full progress_raises raises memory r = r
  prepare custom progress_raises raises memory r = r

  abbrev pub new_run : ScanType → List Text → S → Control → Run S
  new_run kind files s c = record {
    scan_type = kind;
    control = c;
    phase = fetching;
    remaining = files;
    progress = no_progress;
    scanner = s;
  }

  -- `execute_scan` up to its loop
  unfoldable pub start :
      ScanType
      → Bool
      → (ThreatDetection → Bool)
      → Option (List MemoryThreat)
      → List Text
      → S
      → Control
      → Result (Run S)
  unfolding prepare
  start kind progress_raises raises memory files s c = elim (begin c) [
    | err e ↦ err e
    | ok c' ↦ ok (prepare kind progress_raises raises memory (new_run kind files s c'))
  ]

  -- `scan_file` with its exceptions caught, and the size of a file, where it can be read
  module _ (look : Text → S → Option ThreatDetection × S) (size : Text → Option ℕ) where
    -- The counts of a file, before it is scanned
    unfoldable pub count_file : Text → Progress → Progress
    count_file path p = record p {
      files_scanned = p.files_scanned + 1;
      bytes_scanned = elim (size path) [ none ↦ p.bytes_scanned | some n ↦ p.bytes_scanned + n ];
    }

    abbrev pub note_if_any : Option ThreatDetection → Progress → Progress
    note_if_any none p = p
    note_if_any (some t) p = note_threat t p

    -- One round of the loop
    unfoldable pub scan_one : Text → Progress × S → Progress × S
    unfolding count_file
    scan_one path (p, s) = let (t, s') = look path s in (note_if_any t (count_file path p), s')

    -- The file that is held, which is the first of those that remain
    abbrev pub scan_held : List Text → Run S → Run S
    scan_held [] r = finish completed r
    scan_held (path ∷ rest) r =
        let (p, s) = scan_one path (r.progress, r.scanner) in
        record r { phase = fetching; remaining = rest; progress = p; scanner = s }

    -- A step of the scan, by its phase
    unfoldable pub proceed : Phase → Run S → Run S
    proceed fetching r =
        if r.control.is_cancelled || is_empty r.remaining
        then finish completed r
        else record r { phase = holding }
    proceed holding r =
        if not (r.control.is_unpaused)
        then r
        else if r.control.is_cancelled
        then finish cancelled r
        else scan_held r.remaining r
    proceed (over summary) r = r

    unfoldable pub step : Move → Run S → Run S
    step call_cancel r = record r { control = cancel r.control }
    step call_pause r = record r { control = pause r.control }
    step call_resume r = record r { control = resume r.control }
    step advance r = proceed r.phase r

    unfoldable pub run : List Move → Run S → Run S
    run [] r = r
    run (m ∷ ms) r = run ms (step m r)

    -- The files one after the other, as a loop without other threads would scan them
    unfoldable pub scan_all : List Text → Progress × S → Progress × S
    scan_all [] q = q
    scan_all (path ∷ rest) q = scan_all rest (scan_one path q)
