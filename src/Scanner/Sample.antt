-- ===== src/Scanner/Sample.antt =====
-- What `scan_file` of sentinel/engine/scanner.py works on: the constants, a file, a detection, and
-- the functions of the system and of the classifier. A score is in ten-thousandths of a point;
-- descriptions are left out.
use sentinel_antivirus.Prelude.{
  ℕ, Bool, false, Option, none, some, List, [], ◌∷◌, nat_eq, pair_eq, Text, codes, text_eq,
}
use sentinel_antivirus.Authenticode.{Signature}
use sentinel_antivirus.StaticClassifier.{PeFeatures, Tools}
use sentinel_antivirus.Sandbox.Emulator.{EmulationResult}
use sentinel_antivirus.Sandbox.Report.{Host}

-- `EXECUTABLE_EXTENSIONS`
abbrev pub executable_extensions : List Text
executable_extensions =
    codes ".exe"
    ∷ codes ".dll"
    ∷ codes ".sys"
    ∷ codes ".scr"
    ∷ codes ".cpl"
    ∷ codes ".drv"
    ∷ codes ".ocx"
    ∷ codes ".bat"
    ∷ codes ".cmd"
    ∷ codes ".ps1"
    ∷ codes ".vbs"
    ∷ codes ".vbe"
    ∷ codes ".js"
    ∷ codes ".jse"
    ∷ codes ".wsf"
    ∷ codes ".wsh"
    ∷ codes ".hta"
    ∷ codes ".msi"
    ∷ codes ".msp"
    ∷ codes ".com"
    ∷ codes ".pif"
    ∷ []

-- `DECEPTIVE_DOC_EXTENSIONS`
abbrev pub deceptive_doc_extensions : List Text
deceptive_doc_extensions =
    codes ".pdf"
    ∷ codes ".doc"
    ∷ codes ".docx"
    ∷ codes ".xls"
    ∷ codes ".xlsx"
    ∷ codes ".ppt"
    ∷ codes ".pptx"
    ∷ codes ".txt"
    ∷ codes ".rtf"
    ∷ codes ".jpg"
    ∷ codes ".jpeg"
    ∷ codes ".png"
    ∷ codes ".gif"
    ∷ codes ".bmp"
    ∷ codes ".mp3"
    ∷ codes ".mp4"
    ∷ codes ".wav"
    ∷ codes ".avi"
    ∷ codes ".zip"
    ∷ codes ".rar"
    ∷ codes ".7z"
    ∷ codes ".tar"
    ∷ codes ".gz"
    ∷ codes ".iso"
    ∷ codes ".dat"
    ∷ codes ".bin"
    ∷ []

-- `SYSTEM_IGNORE_FILES` and `SENTINEL_SELF_BINARIES`
abbrev pub system_ignore_files : List Text
system_ignore_files =
    codes "pagefile.sys"
    ∷ codes "swapfile.sys"
    ∷ codes "hiberfil.sys"
    ∷ codes "dumpstack.log.tmp"
    ∷ []

abbrev pub sentinel_self_binaries : List Text
sentinel_self_binaries =
    codes "sentinel_service.exe"
    ∷ codes "sentinel_gui.exe"
    ∷ codes "sentinel_tray.exe"
    ∷ codes "sentinel_cli.exe"
    ∷ []

pub data ThreatSeverity : Type 0 where
  low medium high critical : ThreatSeverity

-- `ThreatDetection`
pub record ThreatDetection : Type 0 where
  pub file_path : Text
  pub sha256 : Text
  pub threat_name : Text
  pub score : ℕ
  pub severity : ThreatSeverity
  pub engine : Text
  pub quarantined : Bool
  pub quarantine_id : Option Text
  pub is_memory : Bool
  pub process_id : ℕ

-- What `scan_file` uses of the system, of the classifier and of the emulator: `Path.resolve()`,
-- `path.is_file()`, whether the native triage takes a file for a program, the resolved folder of
-- Windows, `none` where that raises, `dir / name` and `path.is_relative_to(dir)`, a signature check
-- that may raise, the model's probability in ten-thousandths, and the run of the emulator before it
-- is rated, with whether it has an error
pub record ScanTools : Type 0 where
  pub classifier : Tools
  pub host : Host
  pub resolve : Text → Text
  pub is_file : Text → Bool
  pub triage_is_pe : Text → Option Bool
  pub windows_dir : Option Text
  pub child : Text → Text → Text
  pub is_relative_to : Text → Text → Bool
  pub verify_pe_signature : Text → Option Signature
  pub malware_probability : PeFeatures → Text → ℕ
  pub emulate : Text → Text → Option (EmulationResult × Bool)

-- A file that is scanned
pub record Sample : Type 0 where
  pub path : Text
  pub bytes : Text
  pub sha256 : Text

abbrev pub threat_of : Sample → Text → ℕ → ThreatSeverity → Text → ThreatDetection
threat_of f name score severity engine = record {
  file_path = f.path;
  sha256 = f.sha256;
  threat_name = name;
  score = score;
  severity = severity;
  engine = engine;
  quarantined = false;
  quarantine_id = none;
  is_memory = false;
  process_id = 0;
}

-- The first of two layers that finds something; the second is asked only if the first finds
-- nothing.
abbrev pub or_else {ℓ} : {A : Type ℓ} → Option A → Option A → Option A
or_else none later = later
or_else (some a) later = some a

module _ (os : ScanTools) where
  abbrev pub lower : Text → Text
  lower = os.classifier.py.lower

  abbrev pub lower_name : Sample → Text
  lower_name f = lower (os.classifier.file_name f.path)

  abbrev pub lower_suffix : Sample → Text
  lower_suffix f = lower (os.classifier.suffix f.path)
