-- ===== src/MemoryScanner/Managed.antt =====
-- What `MemoryScanner` of sentinel/engine/memory_scanner.py uses of the system, and
-- `_is_managed_process`.
use sentinel_antivirus.Prelude.{
  ℕ, Bool, true, false, ◌&&◌, ◌||◌, not, Option, none, some, List, [], ◌∷◌, if◌then◌else◌, nat_eq,
  pair_eq, any_of, is_empty, Text, codes, text_eq, contains_text,
}
use sentinel_antivirus.Dict.{Dict, lookup, insert, member}
use sentinel_antivirus.Builtins.{Python}
use sentinel_antivirus.MemoryScanner.Region.{MemoryRegion}

-- `_KNOWN_JIT_NAMES` and `_MANAGED_MODULE_PATTERNS`
abbrev pub known_jit_names : List Text
known_jit_names =
    codes "powershell.exe"
    ∷ codes "pwsh.exe"
    ∷ codes "chrome.exe"
    ∷ codes "msedge.exe"
    ∷ codes "firefox.exe"
    ∷ codes "brave.exe"
    ∷ codes "python.exe"
    ∷ codes "pythonw.exe"
    ∷ codes "node.exe"
    ∷ codes "code.exe"
    ∷ codes "devenv.exe"
    ∷ codes "java.exe"
    ∷ codes "javaw.exe"
    ∷ codes "slack.exe"
    ∷ codes "discord.exe"
    ∷ codes "teams.exe"
    ∷ codes "spotify.exe"
    ∷ codes "robloxplayerbeta.exe"
    ∷ codes "roblox.exe"
    ∷ []

abbrev pub managed_module_patterns : List Text
managed_module_patterns =
    codes "clr.dll"
    ∷ codes "clrjit.dll"
    ∷ codes "coreclr.dll"
    ∷ codes "mscorwks.dll"
    ∷ codes "mscoreei.dll"
    ∷ codes "mscoree.dll"
    ∷ codes "mono.dll"
    ∷ codes "mono-2.0-bdwgc.dll"
    ∷ codes "monosgen-2.0.dll"
    ∷ codes "v8.dll"
    ∷ codes "node.dll"
    ∷ codes "jvm.dll"
    ∷ []

-- The names of other systems, and the parts of shared objects' names, of `_is_managed_process`
abbrev pub known_unix_names : List Text
known_unix_names =
    codes "python3"
    ∷ codes "python"
    ∷ codes "node"
    ∷ codes "java"
    ∷ codes "dotnet"
    ∷ codes "mono"
    ∷ codes "chromium"
    ∷ codes "chrome"
    ∷ codes "firefox"
    ∷ codes "brave-browser"
    ∷ []

abbrev pub managed_object_parts : List Text
managed_object_parts =
    codes "clrjit"
    ∷ codes "coreclr"
    ∷ codes "mscorlib"
    ∷ codes "libmonosgen"
    ∷ codes "libcoreclr"
    ∷ codes "libjvm"
    ∷ codes "libv8"
    ∷ codes "libnode"
    ∷ []

-- A region of `/proc/<pid>/maps`, as the regular expression takes a line apart, and one of psutil's
-- maps on macOS, with the two numbers of its address where they can be read
pub record Mapping : Type 0 where
  pub start_addr : ℕ
  pub end_addr : ℕ
  pub perms : Text
  pub inode : ℕ
  pub pathname : Text

pub record MemoryMap : Type 0 where
  pub range : Option (ℕ × ℕ)
  pub path : Text
  pub perms : Text

pub data Platform : Type 0 where
  windows linux macos other : Platform

-- What the scanner uses of the system: VirtualQueryEx and ReadProcessMemory of a process that can
-- be opened, the lines of its maps and the reads of its memory, where they are allowed, and
-- psutil's maps
pub record System : Type 0 where
  pub py : Python
  pub platform : Platform
  pub file_name : Text → Text
  pub module_paths : ℕ → Option (List Text)
  pub open_process : ℕ → Bool
  pub virtual_query : ℕ → ℕ → Option MemoryRegion
  pub read_process_memory : ℕ → ℕ → ℕ → Option Text
  pub maps_lines : ℕ → Option (List Text)
  pub open_mem : ℕ → Bool
  pub match_line : Text → Option Mapping
  pub read_mem : ℕ → ℕ → ℕ → Option Text
  pub memory_maps : ℕ → Option (List MemoryMap)

-- `_managed_pid_cache`
abbrev pub Cache : Type 0
Cache = Dict ℕ Bool

-- A module of a managed runtime
unfoldable pub is_managed_module : System → Text → Bool
is_managed_module sys path =
    not (is_empty path)
    && (member (sys.py.lower (sys.file_name path)) managed_module_patterns
        || any_of (λ part. contains_text (sys.py.lower (sys.file_name path)) part)
            managed_object_parts)

-- `_is_managed_process`
unfoldable pub is_managed_process : System → ℕ → Text → Cache → Bool × Cache
is_managed_process sys pid name cache =
    if member (sys.py.lower name) known_jit_names || member (sys.py.lower name) known_unix_names
    then (true, cache)
    else elim (lookup pid cache) [
      | some managed ↦ (managed, cache)
      | none ↦
          let managed : Bool = elim (sys.module_paths pid) [
            | none ↦ false
            | some paths ↦ any_of (is_managed_module sys) paths
          ] in
          (managed, insert pid managed cache)
    ]
