-- ===== src/MemoryScanner/Scan.antt =====
-- `scan_process` and `scan_all_processes` of sentinel/engine/memory_scanner.py
use sentinel_antivirus.Prelude.{
  ℕ, ◌&&◌, ◌||◌, not, Option, none, some, List, [], ◌∷◌, ◌++◌, map, ltb, leb, if◌then◌else◌, nat_eq,
  pair_eq, is_empty, Text, codes, text_eq, decimal,
}
use sentinel_antivirus.Dict.{member}
use sentinel_antivirus.MemoryScanner.Region.{MemoryThreat}
use sentinel_antivirus.MemoryScanner.Managed.{
  Platform, windows, linux, macos, other, System, Cache, is_managed_process,
}
use mathlib.Core.Option
use sentinel_antivirus.MemoryScanner.Loops.{scan_regions, scan_lines, scan_maps}

-- The three scanners; one that may not look at the process finds nothing.
unfoldable pub scan_windows : System → ℕ → ℕ → Text → ℕ → Cache → Option (List MemoryThreat) × Cache
scan_windows sys fuel pid name budget cache =
    if not (sys.open_process pid)
    then (some [], cache)
    else let (is_jit, cache') = is_managed_process sys pid name cache in
      (scan_regions sys fuel pid name is_jit budget 0 0, cache')

unfoldable pub scan_linux : System → ℕ → Text → ℕ → Cache → List MemoryThreat × Cache
scan_linux sys pid name budget cache =
    let (is_jit, cache') = is_managed_process sys pid name cache in
    elim (sys.maps_lines pid) [
      | none ↦ ([], cache')
      | some lines ↦
          (if sys.open_mem pid then scan_lines sys pid name is_jit budget lines 0 else [], cache')
    ]

unfoldable pub scan_macos : System → ℕ → Text → ℕ → Cache → List MemoryThreat × Cache
scan_macos sys pid name budget cache =
    let (is_jit, cache') = is_managed_process sys pid name cache in
    elim (sys.memory_maps pid) [
      | none ↦ ([], cache')
      | some maps ↦ (scan_maps pid name is_jit budget maps 0, cache')
    ]

abbrev some_threats : List MemoryThreat × Cache → Option (List MemoryThreat) × Cache
some_threats r = (some r.0, r.1)

-- The dispatch of `scan_process`
unfoldable pub scan_on :
    Platform → System → ℕ → ℕ → Text → ℕ → Cache → Option (List MemoryThreat) × Cache
scan_on windows sys fuel pid name budget cache = scan_windows sys fuel pid name budget cache
scan_on linux sys fuel pid name budget cache = some_threats (scan_linux sys pid name budget cache)
scan_on macos sys fuel pid name budget cache = some_threats (scan_macos sys pid name budget cache)
scan_on other sys fuel pid name budget cache = (some [], cache)

-- `process_name or f"pid_{pid}"`
abbrev pub process_name_of : ℕ → Option Text → Text
process_name_of pid none = codes "pid_" ++ decimal pid
process_name_of pid (some name) = if is_empty name then codes "pid_" ++ decimal pid else name

-- `scan_process`
unfoldable pub scan_process :
    System → ℕ → ℕ → Option Text → ℕ → Cache → Option (List MemoryThreat) × Cache
scan_process sys fuel pid name budget cache =
    if leb pid 4
    then (some [], cache)
    else scan_on sys.platform sys fuel pid (process_name_of pid name) budget cache

-- A process as psutil lists it
pub record Process : Type 0 where
  pub pid : Option ℕ
  pub name : Option Text

abbrev pub max_scan_bytes : ℕ
max_scan_bytes = 104857600

-- A process that `scan_all_processes` looks at, with its name
unfoldable pub chosen : System → List Text → Process → Option (ℕ × Text)
chosen sys filter_names p = elim p.pid [
  | none ↦ none
  | some pid ↦ elim p.name [
    | none ↦ none
    | some name ↦
        if ltb (min_pid sys.platform) pid
          && (not (is_empty name)
              && (is_empty filter_names
                  || member (sys.py.lower name) (map sys.py.lower filter_names)))
        then some (pid, name)
        else none
  ]
]
  where
    min_pid : Platform → ℕ
    min_pid windows = 4
    min_pid _ = 1

-- Two results one after the other
abbrev pub append_threats :
    Option (List MemoryThreat) → Option (List MemoryThreat) → Option (List MemoryThreat)
append_threats none later = none
append_threats (some found) later = Option.map (λ ts. found ++ ts) later

-- `scan_all_processes`
unfoldable pub scan_all_processes :
    System → ℕ → List Text → List Process → Cache → Option (List MemoryThreat) × Cache
scan_all_processes sys fuel filter_names [] cache = (some [], cache)
scan_all_processes sys fuel filter_names (p ∷ ps) cache = elim (chosen sys filter_names p) [
  | none ↦ scan_all_processes sys fuel filter_names ps cache
  | some (pid, name) ↦
      let (found, cache1) = scan_process sys fuel pid (some name) max_scan_bytes cache in
      let (later, cache2) = scan_all_processes sys fuel filter_names ps cache1 in
      (append_threats found later, cache2)
]
