-- ===== src/Examples/Scanner.antt =====
-- A file that YARA knows, a scan that is interrupted, and a small folder.
use sentinel_antivirus.Prelude.{
  ℕ, ◌+◌, ◌-◌, ◌/◌, ◌≡◌, refl, ◌↔◌, true, false, Option, none, some, List, [], ◌∷◌, ◌++◌, arith,
  if◌then◌else◌, nat_eq, pair_eq, Text, codes, text_beq, text_eq, starts_with, contains_text, All,
}
use sentinel_antivirus.Dict.{lookup, member}
use sentinel_antivirus.Result.{ok}
use sentinel_antivirus.Quarantine
use sentinel_antivirus.Quarantine.{Store, find_row, record_of, get}
use sentinel_antivirus.Quarantine.Add.{isolated, target}
use sentinel_antivirus.Scanner.Control.{scanning, completed, Control, new_control}
use sentinel_antivirus.Scanner.Sample.{ThreatDetection, critical, ScanTools, Sample, threat_of}
use sentinel_antivirus.Scanner.File.{
  Scanner, quarantine_request, sample_of, yara_threat, find_threat, scan_file,
}
use sentinel_antivirus.Scanner.Layers.{IsAbout, find_threat-IsAbout}
use sentinel_antivirus.Scanner.Quarantining.{scan_file-quarantines}
use sentinel_antivirus.Scanner.Scan.{
  custom, no_progress, Run, call_cancel, call_pause, call_resume, advance, holding, over, new_run,
  summary_of, start, run, scan_all,
}
use sentinel_antivirus.Scanner.Runs.{
  EndsCancelled, advances, cancel_ends, cancel-pause-waits, pause-scans_nothing,
}
use sentinel_antivirus.Scanner.Reached.{Reached, rounds, scan-Reached, scan_completes}
use sentinel_antivirus.Scanner.Targets.{Folder, folder, nil, cons, other, Paths, walk}
use sentinel_antivirus.Scanner.Coverage.{IsTarget, walk_iff}
use sentinel_antivirus.Examples.Classifier.{tools, request}
use sentinel_antivirus.Examples.Reports.{host}
use sentinel_antivirus.Examples.Quarantine.{system, program, disk}
use sentinel_antivirus.Scanner.ReadOnly.{Requests, IsPlain, look_at, scan-read_only}

abbrev scan_tools : ScanTools
scan_tools = record {
  classifier = record tools { yara_scan = λ b. codes "eicar" ∷ []; file_name = λ p. p };
  host = host [];
  resolve = λ p. p;
  is_file = λ p. true;
  triage_is_pe = λ b. none;
  windows_dir = none;
  child = λ d n. d ++ n;
  is_relative_to = λ p d. false;
  verify_pe_signature = λ p. none;
  malware_probability = λ f b. 0;
  emulate = λ p b. none;
}

abbrev infected : Sample
infected = record { path = codes "a.exe"; bytes = codes "MZ"; sha256 = codes "aaaa" }

abbrev threat : ThreatDetection
threat = threat_of infected (codes "YARA:eicar") 900000 critical (codes "yara_scanner")

yara-infected : find_threat scan_tools request true infected none ≡ some (some threat, none)
unfolding find_threat yara_threat sentinel_antivirus.Prelude.contains_text
yara-infected = refl

find_threat-IsAbout_example : IsAbout infected threat
find_threat-IsAbout_example =
    find_threat-IsAbout scan_tools request true infected none yara-infected

abbrev scanner : Scanner ℕ
scanner = record {
  vt = none;
  quarantine_store = some disk;
  auto_quarantine = true;
  read_only_mode = false;
  dynamic_analysis = true;
}

abbrev reader : Scanner ℕ
reader = record scanner { read_only_mode = true }

abbrev quarantine : Quarantine.Request
quarantine = sentinel_antivirus.Examples.Quarantine.request

abbrev requests : Requests
requests path = (request, quarantine)

abbrev size : Text → Option ℕ
size path = some 1

scan-read_only_example :
    let scanned =
      run
        (look_at scan_tools system requests)
        size
        (advance ∷ (call_pause ∷ (call_resume ∷ (advance ∷ []))))
        (new_run custom
          (codes "a.exe" ∷ [])
          reader
          (record { status = scanning; is_cancelled = false; is_unpaused = true })) in
    (scanned.scanner.quarantine_store ≡ some disk)
    × All IsPlain scanned.progress.threats
    × (scan_file scan_tools system request quarantine (codes "b.exe") scanned.scanner
        ≡ some (look_at scan_tools system requests (codes "b.exe") scanned.scanner))
unfolding start sentinel_antivirus.Scanner.Control.begin
scan-read_only_example =
    scan-read_only scan_tools system requests size custom false (λ t. false) none
      (codes "a.exe" ∷ []) reader new_control
      (advance ∷ (call_pause ∷ (call_resume ∷ (advance ∷ [])))) (codes "b.exe") refl tt refl

abbrev known_tools : ScanTools
known_tools = record scan_tools {
  classifier = record (scan_tools.classifier) { sha256_hex = λ b. codes "aaaa" };
}

scan_file-quarantines_example :
    (s' : Scanner ℕ) × (store' : Store ℕ) × (scan_file known_tools system request quarantine
        (codes "a.exe")
        scanner
      ≡ some (some (record threat { quarantined = true; quarantine_id = some (codes "01") }), s'))
    × (s'.quarantine_store ≡ some store')
    × (get (codes "01") store'
        ≡ some (record_of system (quarantine_request quarantine threat) disk.files))
    × (lookup (codes "a.exe") store'.files ≡ none)
    × (lookup (target system (quarantine_request quarantine threat)) store'.files
        ≡ some (isolated program))
unfolding lookup sample_of find_threat yara_threat find_row member
    sentinel_antivirus.Prelude.text_beq sentinel_antivirus.Prelude.contains_text
scan_file-quarantines_example =
    scan_file-quarantines known_tools system request quarantine (codes "a.exe") scanner infected
      program disk threat none refl refl refl refl refl (refl, refl, refl, refl, refl) refl refl

-- Files without a threat, of a byte each
abbrev look : Text → ℕ → Option ThreatDetection × ℕ
look path n = (none, n + 1)

abbrev files : List Text
files = codes "a" ∷ codes "b" ∷ []

abbrev running : Run ℕ
running =
    new_run custom files 0 (record { status = scanning; is_cancelled = false; is_unpaused = true })

abbrev waiting : Run ℕ
waiting = record running { phase = holding }

cancel_ends_example :
    EndsCancelled waiting (run look size (call_cancel ∷ (call_resume ∷ []) ++ advance ∷ []) waiting)
cancel_ends_example = cancel_ends look size (call_resume ∷ []) waiting refl refl

cancel-pause-waits_example :
    let held = run look size (call_cancel ∷ (call_pause ∷ [])) waiting in
    (run look size (advances 9) held ≡ held)
    × (held.phase ≡ holding)
    × (held.control.is_cancelled ≡ true)
cancel-pause-waits_example = cancel-pause-waits look size 9 waiting refl refl

pause-scans_nothing_example :
    (run look size (call_pause ∷ advances 9) running).progress ≡ no_progress
pause-scans_nothing_example = pause-scans_nothing look size 9 running refl refl

scan-Reached_example :
    Reached look size files
      (no_progress, 0)
      (run look size (advance ∷ (call_pause ∷ (call_resume ∷ (advance ∷ [])))) running)
unfolding start sentinel_antivirus.Scanner.Control.begin
scan-Reached_example =
    scan-Reached look size custom false (λ t. false) none files 0 new_control
      (advance ∷ (call_pause ∷ (call_resume ∷ (advance ∷ [])))) refl

scan_completes_example :
    (r : Run ℕ) × (start custom false (λ t. false) none files 0 new_control ≡ ok r)
    × ((run look size (rounds files) r).phase
        ≡ over (summary_of custom completed (scan_all look size files (r.progress, 0)).0))
scan_completes_example = scan_completes look size custom (λ t. false) none files 0 new_control refl

abbrev paths : Paths
paths = record {
  lower = λ t. t;
  suffix = λ p. codes ".exe";
  child = λ d n. d ++ (b'/' ∷ n);
  resolve = λ p. some p;
  target_at = λ p. other;
}

abbrev home : Folder
home = folder (codes "a.exe" ∷ []) (cons (codes "recovery") (folder (codes "b.exe" ∷ []) nil) nil)

walk_iff_example :
    (member (codes "c/a.exe") (walk paths true (codes "c") home) ≡ true)
    ↔ IsTarget paths true (codes "c") home (codes "c/a.exe")
walk_iff_example = walk_iff paths true (codes "c") home (codes "c/a.exe")

-- The file in the ignored folder is left out.
walk-home : walk paths true (codes "c") home ≡ codes "c/a.exe" ∷ []
unfolding walk sentinel_antivirus.Scanner.Targets.files_in
    sentinel_antivirus.Scanner.Targets.is_walked sentinel_antivirus.Scanner.Targets.is_scanned
    member sentinel_antivirus.Prelude.text_beq sentinel_antivirus.Prelude.starts_with
walk-home = refl
