-- ===== src/MemoryScanner/Loops.antt =====
-- The loops of `MemoryScanner` of sentinel/engine/memory_scanner.py over the regions of a process
-- on each platform
use sentinel_antivirus.Prelude.{
  ℕ, zero, suc, ◌+◌, ◌-◌, min, Bool, true, false, ◌&&◌, ◌||◌, not, Option, none, some, List, [],
  ◌∷◌, ◌++◌, ltb, leb, if◌then◌else◌, ◌==◌, nat_eq, pair_eq, is_empty, Text, codes, text_eq,
  starts_with, contains_text,
}
use sentinel_antivirus.Dict.{member}
use sentinel_antivirus.MemoryScanner.Patterns.{shellcode_patterns}
use sentinel_antivirus.MemoryScanner.Region.{
  MemoryRegion, MemoryThreat, unbacked_executable, shellcode_signature, reflective_pe,
  is_unbacked_executable, check_reflective_pe, check_elf_in_memory, has_shellcode, Site, report_if,
  windows_threats,
}
use sentinel_antivirus.MemoryScanner.Managed.{Mapping, MemoryMap, System}
use mathlib.Core.Option

-- `_read_memory_bytes_win`
unfoldable pub read_memory_bytes : System → ℕ → ℕ → ℕ → Text
read_memory_bytes sys pid address size =
    if size == 0
    then []
    else elim (sys.read_process_memory pid address size) [ none ↦ [] | some bytes ↦ bytes ]

abbrev pub site_of : System → ℕ → Text → MemoryRegion → Site
site_of sys pid name r = record {
  pid = pid;
  process_name = name;
  base_address = r.base_address;
  size = r.size;
  protection = r.protect;
  sample = read_memory_bytes sys pid r.base_address (min r.size 1024);
}

-- The threats of a region, and the bytes that count as scanned after it
unfoldable pub scan_region : System → ℕ → Text → Bool → MemoryRegion → ℕ → List MemoryThreat × ℕ
scan_region sys pid name is_jit r total =
    if is_unbacked_executable r
    then (windows_threats is_jit (site_of sys pid name r), total + r.size)
    else ([], total)

-- Where the loop over the regions ends
unfoldable pub is_last : ℕ → MemoryRegion → ℕ → Bool
is_last budget r scanned =
    (is_unbacked_executable r && (ltb 0 budget && leb budget scanned))
    || leb 0x7FFFFFFF0000 (r.base_address + r.size)
    || r.size == 0

-- `_scan_process_regions` from an address on; `none` means that the fuel ran out.
unfoldable pub scan_regions : System → ℕ → ℕ → Text → Bool → ℕ → ℕ → ℕ → Option (List MemoryThreat)
scan_regions sys zero pid name is_jit budget address total = none
scan_regions sys (suc fuel) pid name is_jit budget address total =
    elim (sys.virtual_query pid address) [
      | none ↦ some []
      | some r ↦
          let (found, scanned) = scan_region sys pid name is_jit r total in
          elim (is_last budget r scanned) [
            | true ↦ some found
            | false ↦
                Option.map (λ later. found ++ later)
                  (scan_regions sys fuel pid name is_jit budget (r.base_address + r.size) scanned)
          ]
    ]

-- Whether a mapping is executable, private and anonymous
unfoldable pub is_candidate : Mapping → Bool
is_candidate m =
    ((contains_text m.perms (codes "x") && contains_text m.perms (codes "p"))
      && (m.inode == 0 && not (starts_with m.pathname (codes "["))))
    && not (member m.pathname (codes "[vdso]" ∷ codes "[vsyscall]" ∷ codes "[vvar]" ∷ []))

-- The checks of a mapping on Linux
unfoldable pub linux_threats : Bool → Mapping → Site → List MemoryThreat
linux_threats is_jit m s =
    report_if (check_reflective_pe s.sample) s reflective_pe 9500
    ++ (report_if (check_elf_in_memory s.sample) s reflective_pe 9500
        ++ (report_if (has_shellcode is_jit s.sample shellcode_patterns) s shellcode_signature 9500
            ++ report_if
                (not is_jit
                  && (contains_text m.perms (codes "w") && contains_text m.perms (codes "x")))
                s unbacked_executable 8000))

-- The sample of a mapping that is looked at
unfoldable pub sample_of : System → ℕ → Mapping → Option Text
sample_of sys pid m =
    if is_candidate m
    then elim (sys.read_mem pid m.start_addr (min (m.end_addr - m.start_addr) 1024)) [
      | none ↦ none
      | some sample ↦ if is_empty sample then none else some sample
    ]
    else none

abbrev pub mapping_site : ℕ → Text → Mapping → Text → Site
mapping_site pid name m sample = record {
  pid = pid;
  process_name = name;
  base_address = m.start_addr;
  size = m.end_addr - m.start_addr;
  protection = 0x40;
  sample = sample;
}

-- A line that matches and whose memory is looked at
unfoldable pub sampled : System → ℕ → Text → Option (Mapping × Text)
sampled sys pid line = elim (sys.match_line (sys.py.strip line)) [
  | none ↦ none
  | some m ↦ Option.map (λ sample. (m, sample)) (sample_of sys pid m)
]

-- The loop of `_scan_process_linux`
unfoldable pub scan_lines : System → ℕ → Text → Bool → ℕ → List Text → ℕ → List MemoryThreat
scan_lines sys pid name is_jit budget [] total = []
scan_lines sys pid name is_jit budget (line ∷ lines) total = elim (sampled sys pid line) [
  | none ↦ scan_lines sys pid name is_jit budget lines total
  | some (m, sample) ↦
      let scanned = total + (m.end_addr - m.start_addr) in
      let later = scan_lines sys pid name is_jit budget lines scanned in
      linux_threats is_jit m (mapping_site pid name m sample)
      ++ (if ltb 0 budget && leb budget scanned then [] else later)
]

abbrev pub map_site : ℕ → Text → ℕ × ℕ → Site
map_site pid name r = record {
  pid = pid;
  process_name = name;
  base_address = r.0;
  size = r.1 - r.0;
  protection = 0x40;
  sample = [];
}

-- The range of a map that is executable and anonymous
unfoldable pub map_candidate : MemoryMap → Option (ℕ × ℕ)
map_candidate m =
    if contains_text m.perms (codes "x") && (is_empty m.path || starts_with m.path (codes "["))
    then m.range
    else none

-- The loop of `_scan_process_macos`
unfoldable pub scan_maps : ℕ → Text → Bool → ℕ → List MemoryMap → ℕ → List MemoryThreat
scan_maps pid name is_jit budget [] total = []
scan_maps pid name is_jit budget (m ∷ maps) total = elim (map_candidate m) [
  | none ↦ scan_maps pid name is_jit budget maps total
  | some r ↦
      let scanned = total + (r.1 - r.0) in
      let later = scan_maps pid name is_jit budget maps scanned in
      report_if (not is_jit && contains_text m.perms (codes "w")) (map_site pid name r)
        unbacked_executable 7500
      ++ (if ltb 0 budget && leb budget scanned then [] else later)
]
