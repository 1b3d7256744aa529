-- ===== src/MemoryScanner/Threats.antt =====
-- What the threats of a scan are about.
use sentinel_antivirus.Prelude.{
  ℕ, zero, suc, ◌+◌, ◌-◌, ◌≡◌, refl, inl, inr, Bool, true, false, ◌&&◌, not, Option, some, List, [],
  ◌∷◌, ◌++◌, arith, ltb, leb, if◌then◌else◌, nat_eq, pair_eq, Bool-cases, Option-cases, All,
  All-append, All-weaken, IfAny, IfAny-some, IfAny-weaken, IfAny-map, Text, codes, text_eq,
  contains_text,
}
use sentinel_antivirus.MemoryScanner.Region.{
  MemoryRegion, MemoryThreat, ThreatType, unbacked_executable, shellcode_signature, reflective_pe,
  is_unbacked_executable, Site, threat_at, report_if, windows_threats,
}
use sentinel_antivirus.MemoryScanner.Managed.{
  Mapping, MemoryMap, Platform, windows, linux, macos, other, System, Cache, is_managed_process,
}
use sentinel_antivirus.MemoryScanner.Scan.{
  scan_windows, scan_linux, scan_macos, scan_on, process_name_of, scan_process,
}
use sentinel_antivirus.MemoryScanner.Loops.{
  site_of, scan_region, is_last, scan_regions, linux_threats, mapping_site, sampled, scan_lines,
  map_site, map_candidate, scan_maps,
}

-- A threat that only tells of memory that can be written and run
abbrev pub is_anomaly : ThreatType → Bool
is_anomaly unbacked_executable = true
is_anomaly _ = false

-- What a threat at a site may be, for a process that is managed or not
abbrev IsAt : Bool → Site → MemoryThreat → Type 0
IsAt is_jit s t =
    (t.pid ≡ s.pid)
    × (t.base_address ≡ s.base_address)
    × (t.size ≡ s.size)
    × ((is_jit && is_anomaly t.threat_type) ≡ false)

if-All :
    {A : Type 0} (P : A → Type 0) (b : Bool) (xs : List A) → All P xs → All P (if b then [] else xs)
if-All P true xs h = tt
if-All P false xs h = h

-- A check that finds nothing that may not be, before other threats
report_if-IsAt :
    (b is_jit : Bool) (s : Site) (kind : ThreatType) (confidence : ℕ) (ts : List MemoryThreat)
    → (b && (is_jit && is_anomaly kind)) ≡ false
    → All (IsAt is_jit s) ts
    → All (IsAt is_jit s) (report_if b s kind confidence ++ ts)
unfolding report_if threat_at
report_if-IsAt true is_jit s kind confidence ts h k = ((refl, refl, refl, h), k)
report_if-IsAt false is_jit s kind confidence ts h k = k

report_if-found :
    (b is_jit : Bool) (s : Site) (kind : ThreatType) (confidence : ℕ) (ts : List MemoryThreat)
    → is_anomaly kind ≡ false
    → All (IsAt is_jit s) ts
    → All (IsAt is_jit s) (report_if b s kind confidence ++ ts)
report_if-found b is_jit s kind confidence ts h =
    report_if-IsAt b is_jit s kind confidence ts (ground arith)

report_if-anomaly :
    (b is_jit : Bool) (s : Site) (confidence : ℕ)
    → All (IsAt is_jit s) (report_if (not is_jit && b) s unbacked_executable confidence)
unfolding report_if threat_at
report_if-anomaly b true s confidence = tt
report_if-anomaly true false s confidence = ((refl, refl, refl, refl), tt)
report_if-anomaly false false s confidence = tt

windows_threats-IsAt : (is_jit : Bool) (s : Site) → All (IsAt is_jit s) (windows_threats is_jit s)
unfolding windows_threats
windows_threats-IsAt is_jit s =
    report_if-found _ is_jit s reflective_pe 9800 _ refl (
      report_if-found _ is_jit s shellcode_signature 9500 _ refl
        (report_if-anomaly _ is_jit s 8000))

linux_threats-IsAt :
    (is_jit : Bool) (m : Mapping) (s : Site) → All (IsAt is_jit s) (linux_threats is_jit m s)
unfolding linux_threats
linux_threats-IsAt is_jit m s = report_if-found _ is_jit s reflective_pe 9500 _ refl (
    report_if-found _ is_jit s reflective_pe 9500 _ refl (
      report_if-found _ is_jit s shellcode_signature 9500 _ refl
        (report_if-anomaly _ is_jit s 8000)))

-- A threat of a region that VirtualQueryEx gave for some address
abbrev pub IsFound : System → ℕ → Bool → MemoryThreat → Type 0
IsFound sys pid is_jit t =
    (a : ℕ) × (r : MemoryRegion) × (sys.virtual_query pid a ≡ some r)
    × (is_unbacked_executable r ≡ true)
    × (t.pid ≡ pid)
    × (t.base_address ≡ r.base_address)
    × (t.size ≡ r.size)
    × ((is_jit && is_anomaly t.threat_type) ≡ false)

scan_region-IsFound :
    (sys : System) (pid : ℕ) (name : Text) (is_jit : Bool) (a : ℕ) (r : MemoryRegion) (total : ℕ)
    → sys.virtual_query pid a ≡ some r
    → All (IsFound sys pid is_jit) (scan_region sys pid name is_jit r total).0
unfolding scan_region
scan_region-IsFound sys pid name is_jit a r total q = elim (Bool-cases (is_unbacked_executable r)) [
  | inr backed ↦ rw (scan_region, backed) tt
  | inl unbacked ↦
      rw (scan_region, unbacked)
        (All-weaken (IsAt is_jit (site_of sys pid name r)) (IsFound sys pid is_jit) _
          (λ t h. (a, r, q, unbacked, h.0, h.1, h.2, h.3))
          (windows_threats-IsAt is_jit (site_of sys pid name r)))
]

regions-IsFound :
    (sys : System) (fuel pid : ℕ) (name : Text) (is_jit : Bool) (budget address total : ℕ)
    → IfAny
        (All (IsFound sys pid is_jit))
        (scan_regions sys fuel pid name is_jit budget address total)
unfolding scan_regions
regions-IsFound sys zero pid name is_jit budget address total = tt
regions-IsFound sys (suc fuel) pid name is_jit budget address total =
    elim (Option-cases (sys.virtual_query pid address)) [
      | inl over ↦ rw (scan_regions, over) tt
      | inr (r, here) ↦
          let found = (scan_region sys pid name is_jit r total).0 in
          let scanned = (scan_region sys pid name is_jit r total).1 in
          let sound = scan_region-IsFound sys pid name is_jit address r total here in
          let next = r.base_address + r.size in
          elim (Bool-cases (is_last budget r scanned)) [
            | inl last ↦ rw (scan_regions, here, last) sound
            | inr more ↦
                rw (scan_regions, here, more)
                  (IfAny-map (All (IsFound sys pid is_jit)) (λ later. found ++ later) _
                    (IfAny-weaken (All (IsFound sys pid is_jit)) _
                      (scan_regions sys fuel pid name is_jit budget next scanned)
                      (λ later k. All-append (IsFound sys pid is_jit) found later sound k)
                      (regions-IsFound sys fuel pid name is_jit budget next scanned)))
          ]
    ]

-- Every threat of a scan on Windows lies in a region that the system reports as committed, private
-- and executable, and one of a managed process is more than memory that can be written and run.
pub scan_regions-IsFound :
    (sys : System) (fuel pid : ℕ) (name : Text) (is_jit : Bool) (budget : ℕ)
    (ts : List MemoryThreat)
    → scan_regions sys fuel pid name is_jit budget 0 0 ≡ some ts
    → All (IsFound sys pid is_jit) ts
scan_regions-IsFound sys fuel pid name is_jit budget ts e =
    IfAny-some (All (IsFound sys pid is_jit)) (regions-IsFound sys fuel pid name is_jit budget 0 0)
      e

-- A threat of a process, which is more than such memory if the process is managed
abbrev pub IsOf : ℕ → Bool → MemoryThreat → Type 0
IsOf pid is_jit t = (t.pid ≡ pid) × ((is_jit && is_anomaly t.threat_type) ≡ false)

scan_lines-IsOf :
    (sys : System) (pid : ℕ) (name : Text) (is_jit : Bool) (budget : ℕ) (lines : List Text)
    (total : ℕ)
    → All (IsOf pid is_jit) (scan_lines sys pid name is_jit budget lines total)
unfolding scan_lines
scan_lines-IsOf sys pid name is_jit budget [] total = tt
scan_lines-IsOf sys pid name is_jit budget (line ∷ lines) total =
    elim (Option-cases (sampled sys pid line)) [
      | inl skipped ↦
          rw (scan_lines, skipped) (scan_lines-IsOf sys pid name is_jit budget lines total)
      | inr ((m, sample), read) ↦
          let s = mapping_site pid name m sample in
          let scanned = total + (m.end_addr - m.start_addr) in
          rw (scan_lines, read)
            (All-append (IsOf pid is_jit) (linux_threats is_jit m s) _
              (All-weaken (IsAt is_jit s) (IsOf pid is_jit) _ (λ t h. (h.0, h.3))
                (linux_threats-IsAt is_jit m s))
              (if-All (IsOf pid is_jit) (ltb 0 budget && leb budget scanned) _
                (scan_lines-IsOf sys pid name is_jit budget lines scanned)))
    ]

scan_maps-IsOf :
    (pid : ℕ) (name : Text) (is_jit : Bool) (budget : ℕ) (maps : List MemoryMap) (total : ℕ)
    → All (IsOf pid is_jit) (scan_maps pid name is_jit budget maps total)
unfolding scan_maps
scan_maps-IsOf pid name is_jit budget [] total = tt
scan_maps-IsOf pid name is_jit budget (m ∷ maps) total = elim (Option-cases (map_candidate m)) [
  | inl skipped ↦ rw (scan_maps, skipped) (scan_maps-IsOf pid name is_jit budget maps total)
  | inr (r, found) ↦
      let s = map_site pid name r in
      let scanned = total + (r.1 - r.0) in
      rw (scan_maps, found)
        (All-append (IsOf pid is_jit)
          (report_if (not is_jit && contains_text m.perms (codes "w")) s unbacked_executable 7500) _
          (All-weaken (IsAt is_jit s) (IsOf pid is_jit) _ (λ t h. (h.0, h.3))
            (report_if-anomaly _ is_jit s 7500))
          (if-All (IsOf pid is_jit) (ltb 0 budget && leb budget scanned) _
            (scan_maps-IsOf pid name is_jit budget maps scanned)))
]

scan_on-IsOf :
    (p : Platform) (sys : System) (fuel pid : ℕ) (name : Text) (budget : ℕ) (cache : Cache)
    → IfAny
        (All (IsOf pid (is_managed_process sys pid name cache).0))
        (scan_on p sys fuel pid name budget cache).0
unfolding scan_on scan_windows scan_linux scan_macos
scan_on-IsOf windows sys fuel pid name budget cache =
    let is_jit = (is_managed_process sys pid name cache).0 in
    elim (Bool-cases (sys.open_process pid)) [
      | inr shut ↦ rw (scan_windows, shut) tt
      | inl opened ↦
          rw (scan_windows, opened)
            (IfAny-weaken (All (IsFound sys pid is_jit)) (All (IsOf pid is_jit)) _
              (λ ts. All-weaken (IsFound sys pid is_jit) (IsOf pid is_jit) ts (λ t h. (h.4, h.7)))
              (regions-IsFound sys fuel pid name is_jit budget 0 0))
    ]
scan_on-IsOf linux sys fuel pid name budget cache =
    let is_jit = (is_managed_process sys pid name cache).0 in
    elim (Option-cases (sys.maps_lines pid)) [
      | inl denied ↦ rw (scan_linux, denied) tt
      | inr (lines, read) ↦ elim (Bool-cases (sys.open_mem pid)) [
        | inr denied ↦ rw (scan_linux, read, denied) tt
        | inl opened ↦
            rw (scan_linux, read, opened) (scan_lines-IsOf sys pid name is_jit budget lines 0)
      ]
    ]
scan_on-IsOf macos sys fuel pid name budget cache =
    let is_jit = (is_managed_process sys pid name cache).0 in
    elim (Option-cases (sys.memory_maps pid)) [
      | inl denied ↦ rw (scan_macos, denied) tt
      | inr (maps, read) ↦ rw (scan_macos, read) (scan_maps-IsOf pid name is_jit budget maps 0)
    ]
scan_on-IsOf other sys fuel pid name budget cache = tt

-- On every platform the threats of a scan are about the process, and those of a managed process are
-- more than memory that can be written and run.
pub scan_process-IsOf :
    (sys : System) (fuel pid : ℕ) (name : Option Text) (budget : ℕ) (cache : Cache)
    (ts : List MemoryThreat)
    → (scan_process sys fuel pid name budget cache).0 ≡ some ts
    → All (IsOf pid (is_managed_process sys pid (process_name_of pid name) cache).0) ts
unfolding scan_process
scan_process-IsOf sys fuel pid name budget cache ts e =
    let P = IsOf pid (is_managed_process sys pid (process_name_of pid name) cache).0 in
    let sound : IfAny (All P) (scan_process sys fuel pid name budget cache).0 =
      elim (Bool-cases (leb pid 4)) [
        | inl low ↦ rw (scan_process, low) tt
        | inr high ↦
            rw (scan_process, high)
              (scan_on-IsOf sys.platform sys fuel pid (process_name_of pid name) budget cache)
      ] in
    IfAny-some (All P) sound e
