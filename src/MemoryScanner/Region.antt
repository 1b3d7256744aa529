-- ===== src/MemoryScanner/Region.antt =====
-- `MemoryRegion`, `MemoryThreat` and the checks of a sample, of sentinel/engine/memory_scanner.py.
-- Descriptions and times are left out; a confidence is in ten-thousandths.
use sentinel_antivirus.Prelude.{
  ℕ, ◌+◌, ◌-◌, ◌/◌, ◌%◌, min, Bool, true, false, ◌&&◌, ◌||◌, not, List, [], ◌∷◌, ◌++◌, ltb, leb,
  if◌then◌else◌, ◌==◌, nat_eq, pair_eq, length, Text, codes, text_eq, starts_with, contains_text,
  decimal, first, skip,
}
use sentinel_antivirus.Dict.{member}
use sentinel_antivirus.Scoring.Signals.{Signal, new_signal, pid_prefix}
use sentinel_antivirus.Sandbox.Memory.{unpack}
use sentinel_antivirus.MemoryScanner.Patterns.{shellcode_patterns}

-- `MemoryRegion`
pub record MemoryRegion : Type 0 where
  pub base_address : ℕ
  pub size : ℕ
  pub state : ℕ
  pub protect : ℕ
  pub mem_type : ℕ

-- `EXECUTABLE_PROTECTIONS`
abbrev pub executable_protections : List ℕ
executable_protections = 0x10 ∷ 0x20 ∷ 0x40 ∷ 0x80 ∷ []

-- `is_executable`, `is_private`, `is_unbacked_executable`
unfoldable pub is_executable : MemoryRegion → Bool
is_executable r = member (r.protect % 256) executable_protections

unfoldable pub is_private : MemoryRegion → Bool
is_private r = r.mem_type == 0x20000

unfoldable pub is_unbacked_executable : MemoryRegion → Bool
is_unbacked_executable r = (r.state == 0x1000 && is_private r) && is_executable r

pub data ThreatType : Type 0 where
  unbacked_executable shellcode_signature reflective_pe process_hollowing : ThreatType

-- `MemoryThreat`
pub record MemoryThreat : Type 0 where
  pub pid : ℕ
  pub process_name : Text
  pub base_address : ℕ
  pub size : ℕ
  pub threat_type : ThreatType
  pub confidence : ℕ
  pub protection : ℕ
  pub sample_bytes : Text

-- `kind_map`
unfoldable pub kind_of : ThreatType → Text
kind_of unbacked_executable = codes "memory_unbacked_exec"
kind_of shellcode_signature = codes "memory_shellcode"
kind_of reflective_pe = codes "memory_shellcode"
kind_of process_hollowing = codes "memory_hollowing"

-- `to_signal`
unfoldable pub to_signal : ℕ → MemoryThreat → Signal
unfolding kind_of
to_signal now t =
    new_signal now (kind_of t.threat_type) (pid_prefix ++ decimal t.pid) (codes "memory_scanner")

-- `_check_reflective_pe`
unfoldable pub check_reflective_pe : Text → Bool
unfolding unpack
check_reflective_pe sample =
    if ltb (length sample) 64 || not (starts_with sample (codes "MZ"))
    then false
    else let e_lfanew = unpack (first 4 (skip 60 sample)) in
      if (leb 64 e_lfanew && leb e_lfanew (min (length sample - 4) 4096))
        && first 4 (skip e_lfanew sample) == (80 ∷ 69 ∷ 0 ∷ 0 ∷ [])
      then if leb (e_lfanew + 6) (length sample)
        then member (unpack (first 2 (skip (e_lfanew + 4) sample))) (0x014C ∷ 0x8664 ∷ 0xAA64 ∷ [])
        else true
      else false

-- `_check_elf_in_memory`
unfoldable pub check_elf_in_memory : Text → Bool
check_elf_in_memory sample =
    if ltb (length sample) 16
    then false
    else first 4 sample == (127 ∷ 69 ∷ 76 ∷ 70 ∷ [])
      && (first 1 (skip 4 sample) == (1 ∷ []) || first 1 (skip 4 sample) == (2 ∷ []))

-- The loop over the patterns: whether one is found
unfoldable pub has_shellcode : Bool → Text → List (Text × Text) → Bool
has_shellcode is_jit sample [] = false
has_shellcode is_jit sample ((pattern, desc) ∷ patterns) =
    let rest = has_shellcode is_jit sample patterns in
    if is_jit && contains_text desc (codes "PEB resolution")
    then rest
    else if contains_text sample pattern
    then true
    else rest

-- What the checks of a region share
pub record Site : Type 0 where
  pub pid : ℕ
  pub process_name : Text
  pub base_address : ℕ
  pub size : ℕ
  pub protection : ℕ
  pub sample : Text

unfoldable pub threat_at : Site → ThreatType → ℕ → MemoryThreat
threat_at s kind confidence = record {
  pid = s.pid;
  process_name = s.process_name;
  base_address = s.base_address;
  size = s.size;
  threat_type = kind;
  confidence = confidence;
  protection = s.protection;
  sample_bytes = first 32 s.sample;
}

-- A threat, if a check finds one
unfoldable pub report_if : Bool → Site → ThreatType → ℕ → List MemoryThreat
report_if b s kind confidence = if b then threat_at s kind confidence ∷ [] else []

-- The checks of a region on Windows; `protect & 0xC0`
unfoldable pub windows_threats : Bool → Site → List MemoryThreat
windows_threats is_jit s =
    report_if (check_reflective_pe s.sample) s reflective_pe 9800
    ++ (report_if (has_shellcode is_jit s.sample shellcode_patterns) s shellcode_signature 9500
        ++ report_if (not is_jit && ltb 0 (s.protection / 64 % 4)) s unbacked_executable 8000)
