-- ===== src/Scanner/Targets.antt =====
-- `_collect_files` of sentinel/engine/scanner.py over folders that do not change meanwhile: the
-- files that a scan looks at. That it stops where the scan is cancelled is part of the scan.
use sentinel_antivirus.Prelude.{
  Bool, ◌&&◌, ◌||◌, not, Option, none, some, List, [], ◌∷◌, ◌++◌, map, if◌then◌else◌, nat_eq,
  pair_eq, keep, Text, codes, text_eq, starts_with,
}
use sentinel_antivirus.Dict.{member}
use sentinel_antivirus.Scanner.Sample.{executable_extensions, system_ignore_files}

-- `SYSTEM_IGNORE_FOLDERS`
abbrev pub system_ignore_folders : List Text
system_ignore_folders =
    codes "$recycle.bin"
    ∷ codes "system volume information"
    ∷ codes "$windows.~bt"
    ∷ codes "$windows.~ws"
    ∷ codes "$winreagent"
    ∷ codes "recovery"
    ∷ []

-- A folder as `os.walk` finds it: the names of its files, and its folders that are no links
mutual
  pub data Folder : Type 0 where
    folder : List Text → Folders → Folder

  pub data Folders : Type 0 where
    nil : Folders
    cons : Text → Folder → Folders → Folders

-- What a resolved target is
pub data Target : Type 0 where
  file other : Target
  directory : Folder → Target

-- `s.lower()`, `path.suffix`, `Path(root) / name`, `target.resolve()`, which may raise, and what is
-- at a path
pub record Paths : Type 0 where
  pub lower : Text → Text
  pub suffix : Text → Text
  pub child : Text → Text → Text
  pub resolve : Text → Option Text
  pub target_at : Text → Target

module _ (os : Paths) (quick_mode : Bool) where
  -- A folder that is walked
  unfoldable pub is_walked : Text → Bool
  is_walked d = not (member (os.lower d) system_ignore_folders) && not (starts_with d (codes "."))

  -- A file that is scanned
  unfoldable pub is_scanned : Text → Text → Bool
  is_scanned root name =
      not (member (os.lower name) system_ignore_files)
      && (not quick_mode
          || member (os.lower (os.suffix (os.child root name))) executable_extensions)

  unfoldable pub files_in : Text → List Text → List Text
  files_in root names = map (os.child root) (keep (is_scanned root) names)

  -- `os.walk`, a folder before those in it
  unfoldable mutual
    pub walk : Text → Folder → List Text
    walk root (folder names folders) = files_in root names ++ walk_all root folders

    pub walk_all : Text → Folders → List Text
    walk_all root nil = []
    walk_all root (cons d f folders) =
        (if is_walked d then walk (os.child root d) f else []) ++ walk_all root folders

  unfoldable pub files_of : Text → Target → List Text
  files_of path file = path ∷ []
  files_of path other = []
  files_of path (directory f) = walk path f

  -- `_collect_files`
  unfoldable pub collect_files : List Text → List Text
  collect_files [] = []
  collect_files (target ∷ targets) = elim (os.resolve target) [
    | none ↦ collect_files targets
    | some path ↦ files_of path (os.target_at path) ++ collect_files targets
  ]
