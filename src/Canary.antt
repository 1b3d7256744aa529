-- ===== src/Canary.antt =====
-- sentinel/engine/canary.py: the canary files that the manager deploys, inspects, repairs and
-- removes. File attributes are left out. Files are held under their resolved paths.
pub mod Templates
pub mod Sound
pub mod Repair
pub mod Arming
use sentinel_antivirus.Prelude.{
  ℕ, ◌+◌, Bool, false, ◌&&◌, not, Option, none, some, List, [], ◌∷◌, if◌then◌else◌, ◌==◌, nat_eq,
  length, any_of, is_empty, Text, codes, text_eq, starts_with, ends_with,
}
use sentinel_antivirus.Dict.{Dict, values, lookup, has_key, insert, erase}
use sentinel_antivirus.Result.{os_error, Result, ok, err}
use sentinel_antivirus.Canary.Templates.{CanaryTemplate}

-- `CanaryTrap`; its `is_armed` is always true.
pub record CanaryTrap : Type 0 where
  pub path : Text
  pub template : CanaryTemplate
  pub original_sha256 : Text
  pub original_size : ℕ

-- What the manager uses of the system, with the accesses that it refuses: `Path.resolve` and
-- `Path.name`, `directory / filename`, `str.lower`, and SHA-256. A directory is refused that does
-- not exist and cannot be made.
pub record System : Type 0 where
  pub resolve : Text → Text
  pub file_name : Text → Text
  pub in_directory : Text → Text → Text
  pub lower : Text → Text
  pub sha256_hex : Text → Text
  pub directory_denied : Text → Bool
  pub write_denied : Text → Bool
  pub read_denied : Text → Bool
  pub unlink_denied : Text → Bool

-- `CanaryManager` with the files: `canaries` are held under the lower-case path.
pub record Manager : Type 0 where
  pub target_directories : List Text
  pub canaries : Dict Text CanaryTrap
  pub armed_count : ℕ
  pub files : Dict Text Text

-- Why a file counts as tampered with; each carries the file's name.
pub data Tampering : Type 0 where
  pattern_match deleted modified_content size_tampered access_denied : Text → Tampering

module _ (os : System) where
  -- The key of a path
  abbrev pub norm : Text → Text
  norm path = os.lower (os.resolve path)

  -- `write_canary_content`: the files, or an error
  unfoldable pub write_canary_content : Text → Text → Dict Text Text → Result (Dict Text Text)
  write_canary_content path bytes files =
      if os.write_denied path then err os_error else ok (insert (os.resolve path) bytes files)

  -- The trap of a template at a path that is resolved
  abbrev pub trap_at : Text → CanaryTemplate → CanaryTrap
  trap_at path t = record {
    path = path;
    template = t;
    original_sha256 = os.sha256_hex t.sample_content;
    original_size = length t.sample_content;
  }

  -- One template in a directory; an error leaves it out.
  unfoldable pub arm_template : Text → CanaryTemplate → Manager → Manager
  unfolding write_canary_content
  arm_template directory t m =
      let path = os.in_directory directory t.filename in
      elim (write_canary_content path t.sample_content m.files) [
        | err e ↦ m
        | ok files ↦ record m {
          files = files;
          canaries = insert (norm path) (trap_at (os.resolve path) t) m.canaries;
          armed_count = m.armed_count + 1;
        }
      ]

  unfoldable pub arm_directory : Text → List CanaryTemplate → Manager → Manager
  arm_directory directory [] m = m
  arm_directory directory (t ∷ ts) m = arm_directory directory ts (arm_template directory t m)

  unfoldable pub arm_directories : List Text → List CanaryTemplate → Manager → Manager
  arm_directories [] ts m = m
  arm_directories (d ∷ ds) ts m =
      arm_directories ds ts (if os.directory_denied d then m else arm_directory d ts m)

  -- `arm_traps`, with the templates; `armed_count` is what it returns.
  unfoldable pub arm_traps : List CanaryTemplate → Manager → Manager
  arm_traps ts m =
      arm_directories m.target_directories ts (record m { canaries = []; armed_count = 0 })

  -- `is_canary`
  unfoldable pub is_canary : Text → Manager → Bool
  is_canary path m = if is_empty path then false else has_key (norm path) m.canaries

  -- What `check_tampering` finds of a trap
  unfoldable pub inspect : CanaryTrap → Dict Text Text → Option Tampering
  inspect t files =
      let name = os.file_name t.path in
      elim (lookup (os.resolve t.path) files) [
        | none ↦ some (deleted name)
        | some bytes ↦
            if os.read_denied t.path
            then some (access_denied name)
            else if not (os.sha256_hex bytes == t.original_sha256)
            then some (modified_content name)
            else if not (length bytes == t.original_size)
            then some (size_tampered name)
            else none
      ]

  -- The test on the name of a file that is no trap
  abbrev pub looks_like_canary : List CanaryTemplate → Text → Bool
  looks_like_canary ts name =
      starts_with name (codes "!00_") && any_of (λ t. ends_with name t.extension) ts

  -- `check_tampering`: the reason, or `none` for a clean file
  unfoldable pub check_tampering : List CanaryTemplate → Text → Manager → Option Tampering
  check_tampering ts path m =
      let name = os.file_name path in
      if is_empty path then none else elim (lookup (norm path) m.canaries) [
        | some t ↦ inspect t m.files
        | none ↦ if looks_like_canary ts name then some (pattern_match name) else none
      ]

  -- `verify_all_canaries`
  unfoldable pub tampered_of :
      List CanaryTemplate → Manager → List CanaryTrap → List (CanaryTrap × Tampering)
  tampered_of ts m [] = []
  tampered_of ts m (t ∷ traps) =
      let more = tampered_of ts m traps in
      elim (check_tampering ts t.path m) [ none ↦ more | some reason ↦ (t, reason) ∷ more ]

  unfoldable pub verify_all_canaries : List CanaryTemplate → Manager → List (CanaryTrap × Tampering)
  unfolding tampered_of
  verify_all_canaries ts m = tampered_of ts m (values m.canaries)

  -- One round of `repair_canaries`, with the count of repairs
  unfoldable pub repair : List CanaryTemplate → Text → CanaryTrap → Manager × ℕ → Manager × ℕ
  unfolding write_canary_content
  repair ts key t (m, repaired) = elim (check_tampering ts t.path m) [
    | none ↦ (m, repaired)
    | some reason ↦ elim (write_canary_content t.path t.template.sample_content m.files) [
      | err e ↦ (m, repaired)
      | ok files ↦ (
        record m { files = files; canaries = insert key (trap_at t.path t.template) m.canaries },
        repaired + 1,
      )
    ]
  ]

  unfoldable pub repair_each :
      List CanaryTemplate → Dict Text CanaryTrap → Manager × ℕ → Manager × ℕ
  unfolding repair
  repair_each ts [] s = s
  repair_each ts ((key, t) ∷ d) s = repair_each ts d (repair ts key t s)

  -- `repair_canaries`, over a copy of the entries
  unfoldable pub repair_canaries : List CanaryTemplate → Manager → Manager × ℕ
  unfolding repair_each
  repair_canaries ts m = repair_each ts m.canaries (m, 0)

  -- The removal of a canary file, where it exists and the system allows it
  unfoldable pub remove_file : CanaryTrap → Dict Text Text → Dict Text Text
  remove_file t files = if os.unlink_denied t.path then files else erase (os.resolve t.path) files

  unfoldable pub remove_files : List CanaryTrap → Dict Text Text → Dict Text Text
  unfolding remove_file
  remove_files [] files = files
  remove_files (t ∷ traps) files = remove_files traps (remove_file t files)

  -- `disarm_traps`
  unfoldable pub disarm_traps : Manager → Manager
  unfolding remove_files
  disarm_traps m = record m {
    files = remove_files (values m.canaries) m.files;
    canaries = [];
    armed_count = 0;
  }
