-- ===== src/Examples/Memory.antt =====
-- A process with one region that can be written and run.
use sentinel_antivirus.Prelude.{
  ℕ, ◌+◌, ◌-◌, ◌<◌, ◌≡◌, refl, true, false, none, some, List, [], ◌∷◌, arith, ltb, if◌then◌else◌,
  nat_eq, pair_eq, All, codes, text_eq, contains_text, first,
}
use sentinel_antivirus.Dict.{lookup, member}
use sentinel_antivirus.Result.{ok}
use sentinel_antivirus.Scoring.Signals.{SubjectScore}
use sentinel_antivirus.Scoring.Scorer.{Scorer, add_signal, should_respond}
use sentinel_antivirus.MemoryScanner.Region.{
  MemoryRegion, MemoryThreat, reflective_pe, is_unbacked_executable, check_reflective_pe, to_signal,
  windows_threats, report_if, threat_at, has_shellcode, is_executable, is_private,
}
use sentinel_antivirus.MemoryScanner.Managed.{windows, System}
use sentinel_antivirus.MemoryScanner.Scan.{scan_process}
use sentinel_antivirus.MemoryScanner.Loops.{scan_regions, scan_region, is_last, read_memory_bytes}
use sentinel_antivirus.MemoryScanner.Header.{pe_sample, machines, check_reflective_pe-pe_sample}
use sentinel_antivirus.MemoryScanner.Ends.{scan_process-total}
use sentinel_antivirus.MemoryScanner.Threats.{IsFound, scan_regions-IsFound}
use sentinel_antivirus.MemoryScanner.Response.{to_signal-responds}
use sentinel_antivirus.Sandbox.Memory.Slices.{zeros, length-zeros}
use sentinel_antivirus.Examples.{plain_python}
use sentinel_antivirus.Examples.Detectors.{no_scores}

-- The region holds the first page; what lies behind it is one region more, to the end.
abbrev code_region : MemoryRegion
code_region = record {
  base_address = 0;
  size = 4096;
  state = 0x1000;
  protect = 0x40;
  mem_type = 0x20000;
}

abbrev region_of : ℕ → MemoryRegion
region_of a =
    if ltb a 4096 then code_region else record code_region { size = a + 0x7FFFFFFF0000; state = 0 }

abbrev system : System
system = record {
  py = plain_python;
  platform = windows;
  file_name = λ p. p;
  module_paths = λ pid. none;
  open_process = λ pid. true;
  virtual_query = λ pid a. some (region_of a);
  read_process_memory = λ pid a n. none;
  maps_lines = λ pid. none;
  open_mem = λ pid. false;
  match_line = λ line. none;
  read_mem = λ pid a n. none;
  memory_maps = λ pid. none;
}

region_of-advances :
    (a : ℕ) (r : MemoryRegion) → some (region_of a) ≡ some r → a < r.base_address + r.size
region_of-advances a r e = ground arith

scan_process-total_example :
    (ts : List MemoryThreat) × ((scan_process system 0x7FFFFFFF0000 7
        (some (codes "a.exe"))
        104857600
        []).0
      ≡ some ts)
scan_process-total_example =
    scan_process-total system 0x7FFFFFFF0000 7 (some (codes "a.exe")) 104857600 []
      region_of-advances (omega arith)

abbrev anomaly : MemoryThreat
anomaly = record {
  pid = 7;
  process_name = codes "a.exe";
  base_address = 0;
  size = 4096;
  threat_type = sentinel_antivirus.MemoryScanner.Region.unbacked_executable;
  confidence = 8000;
  protection = 0x40;
  sample_bytes = [];
}

scan-anomaly : scan_regions system 2 7 (codes "a.exe") false 0 0 0 ≡ some (anomaly ∷ [])
unfolding scan_regions scan_region is_last windows_threats report_if threat_at check_reflective_pe
    has_shellcode is_unbacked_executable is_executable is_private read_memory_bytes member
    sentinel_antivirus.Prelude.contains_text sentinel_antivirus.Prelude.first
scan-anomaly = refl

scan_regions-IsFound_example : All (IsFound system 7 false) (anomaly ∷ [])
scan_regions-IsFound_example =
    scan_regions-IsFound system 2 7 (codes "a.exe") false 0 (anomaly ∷ []) scan-anomaly

check_reflective_pe-pe_sample_example :
    check_reflective_pe (pe_sample (zeros 58) (zeros 16) 0x8664 []) ≡ member 0x8664 machines
check_reflective_pe-pe_sample_example =
    check_reflective_pe-pe_sample (zeros 58) (zeros 16) 0x8664 [] (length-zeros 58)
      (omega (arith, length-zeros 16)) (omega arith)

abbrev injected : MemoryThreat
injected = record anomaly { threat_type = reflective_pe }

to_signal-responds_example :
    (sc' : Scorer) × (c : SubjectScore) × (add_signal 5 (to_signal 5 injected) no_scores
      ≡ ok (sc', c))
    × (should_respond (to_signal 5 injected).subject sc' ≡ true)
unfolding lookup
to_signal-responds_example =
    to_signal-responds 5 injected no_scores refl (omega arith)
      (record { bounded = omega arith; unique = tt; consistent = tt }) refl (omega arith)
