-- ===== src/StaticClassifier.antt =====
-- `StaticClassifier` of sentinel/engine/static_classifier.py: what a file that is written gives.
-- YARA, the features and the model are given as what they say of a file.
pub mod Laws
pub mod About
use sentinel_antivirus.Prelude.{
  ℕ, Bool, false, ◌&&◌, not, Option, none, some, List, [], ◌∷◌, ◌++◌, map, if◌then◌else◌, ◌==◌,
  nat_eq, is_empty, Text, codes, text_eq, first,
}
use sentinel_antivirus.Dict.{member, add}
use sentinel_antivirus.Result.{type_error, Result, ok, err}
use mathlib.Core.Option
use sentinel_antivirus.Authenticode.{Signature}
use sentinel_antivirus.Builtins.{Python, truthy, field}
use sentinel_antivirus.Schema.{Event, Value, text}
use sentinel_antivirus.Scoring.Signals.{Signal, new_signal}
use sentinel_antivirus.VirusTotal.Client.{
  Client, malicious, clean, unknown, HashVerdict, Answer, Chance, is_eligible_path, lookup_hash,
}

-- What the classifier and the scanner read of `PEFeatures`, the entropy in ten-thousandths of a
-- bit; the model sees the file as well.
pub record PeFeatures : Type 0 where
  pub has_signature : Bool
  pub suspicious_section_count : ℕ
  pub max_section_entropy : ℕ

-- What the classifier uses of the system and of other libraries: the bytes of a file that can be
-- read, `Path.name`, `Path.suffix`, SHA-256, the names of the YARA rules that match, the signature
-- check, the features of a PE file, and whether the model finds them suspicious
pub record Tools : Type 0 where
  pub py : Python
  pub read_bytes : Text → Option Text
  pub file_name : Text → Text
  pub suffix : Text → Text
  pub sha256_hex : Text → Text
  pub yara_scan : Text → List Text
  pub verify_signature : Text → Option Signature
  pub extract_pe_features : Text → Text → Option PeFeatures
  pub pe_is_suspicious : PeFeatures → Text → Bool

-- What a request to VirusTotal meets
pub record Request : Type 0 where
  pub chance : Chance
  pub answer : Answer
  pub now : ℕ

-- `StaticClassifier`
pub record Classifier : Type 0 where
  pub vt : Option Client
  pub checked_hashes : List Text

-- `s.split(".")`
unfoldable pub split_dots : Text → List Text
split_dots [] = [] ∷ []
split_dots (c ∷ s) = elim (split_dots s) [
  | [] ↦ []
  | ◌∷◌ part parts ↦ if c == b'.' then [] ∷ (part ∷ parts) else (c ∷ part) ∷ parts
]

abbrev last_two : Text → Text → List Text → Text × Text
last_two a b [] = (a, b)
last_two a b (c ∷ parts) = last_two b c parts

-- The last two of three parts or more
abbrev pub extensions : List Text → Option (Text × Text)
extensions (a ∷ b ∷ c ∷ parts) = some (last_two b c parts)
extensions _ = none

abbrev pub executable_extensions : List Text
executable_extensions =
    codes "exe"
    ∷ codes "dll"
    ∷ codes "sys"
    ∷ codes "scr"
    ∷ codes "bat"
    ∷ codes "cmd"
    ∷ codes "ps1"
    ∷ codes "vbs"
    ∷ codes "js"
    ∷ codes "hta"
    ∷ []

abbrev pub document_extensions : List Text
document_extensions =
    codes "pdf"
    ∷ codes "doc"
    ∷ codes "docx"
    ∷ codes "xls"
    ∷ codes "xlsx"
    ∷ codes "ppt"
    ∷ codes "pptx"
    ∷ codes "txt"
    ∷ codes "rtf"
    ∷ codes "jpg"
    ∷ codes "jpeg"
    ∷ codes "png"
    ∷ codes "gif"
    ∷ codes "mp3"
    ∷ codes "mp4"
    ∷ codes "zip"
    ∷ codes "rar"
    ∷ []

abbrev pub data_suffixes : List Text
data_suffixes =
    codes ".pdf"
    ∷ codes ".doc"
    ∷ codes ".docx"
    ∷ codes ".xls"
    ∷ codes ".xlsx"
    ∷ codes ".ppt"
    ∷ codes ".pptx"
    ∷ codes ".txt"
    ∷ codes ".rtf"
    ∷ codes ".jpg"
    ∷ codes ".jpeg"
    ∷ codes ".png"
    ∷ codes ".gif"
    ∷ codes ".bmp"
    ∷ codes ".mp3"
    ∷ codes ".mp4"
    ∷ codes ".wav"
    ∷ codes ".avi"
    ∷ codes ".zip"
    ∷ codes ".rar"
    ∷ codes ".7z"
    ∷ codes ".tar"
    ∷ codes ".gz"
    ∷ codes ".iso"
    ∷ codes ".dat"
    ∷ codes ".bin"
    ∷ []

-- A document's extension before an executable's, both in lower case and without their dots
unfoldable pub is_deceptive : Text → Bool
unfolding split_dots
is_deceptive name = elim (extensions (split_dots name)) [
  | none ↦ false
  | some (penultimate, final) ↦
      member final executable_extensions && member penultimate document_extensions
]

-- The file that an event is about: its image, or else the path in its `extra`
unfoldable pub event_path : Event → Result (Option Text)
event_path e =
    if not (e.event_type == codes "file_write" && e.source == codes "fs")
    then ok none
    else elim (path_value e) [
      | text t ↦ ok (if is_empty t then none else some t)
      | v ↦ if truthy v then err type_error else ok none
    ]
  where
    path_value : Event → Value
    path_value e = elim e.image_path [
      | none ↦ field (codes "path") e.extra
      | some p ↦ if is_empty p then field (codes "path") e.extra else text p
    ]

module _ (os : Tools) where
  abbrev pub file_subject : Text → Text
  file_subject sha256 = codes "file:" ++ first 16 sha256

  abbrev found : ℕ → Text → Text → Text → List Signal
  found now kind engine sha256 = new_signal now kind (file_subject sha256) engine ∷ []

  -- What the features of a PE file give
  unfoldable pub pe_signals : ℕ → Text → Text → Text → PeFeatures → List Signal
  pe_signals now path bytes sha256 f =
      if member (os.py.lower (os.suffix path)) data_suffixes
      then found now (codes "pe_masquerade") (codes "static_classifier") sha256
      else if os.pe_is_suspicious f bytes
          && not (f.has_signature && f.suspicious_section_count == 0)
      then found now (codes "vt_unknown_suspicious_pe") (codes "static_classifier") sha256
      else []

  -- The checks without VirusTotal
  unfoldable pub local_signals : ℕ → Text → Text → Text → List Signal
  local_signals now path bytes sha256 =
      if is_deceptive (os.py.lower (os.file_name path))
      then found now (codes "pe_double_extension") (codes "static_classifier") sha256
      else elim (os.extract_pe_features path bytes) [
        | none ↦ []
        | some f ↦ pe_signals now path bytes sha256 f
      ]

  -- The signals by what VirusTotal says, if it says anything
  unfoldable pub verdict_signals : ℕ → Text → Text → Text → Option HashVerdict → List Signal
  verdict_signals now path bytes sha256 none = local_signals now path bytes sha256
  verdict_signals now path bytes sha256 (some v) = elim v.verdict [
    | malicious ↦ found now (codes "vt_positive") (codes "static_classifier") sha256
    | clean ↦ []
    | unknown ↦ local_signals now path bytes sha256
  ]

  -- The question to VirusTotal, for a file that may be asked about
  unfoldable pub ask :
      Request → Text → Text → Option Client → Option (Option HashVerdict × Option Client)
  ask q path sha256 none = some (none, none)
  ask q path sha256 (some client) =
      if is_eligible_path (os.verify_signature path)
      then Option.map {B = Option HashVerdict × Option Client} (λ r. (r.verdict, some r.client))
          (lookup_hash os.py q.chance q.answer q.now sha256 client)
      else some (none, some client)

  -- A file whose hash is new; `c` has noted it.
  unfoldable pub classify_new :
      Request → Text → Text → Text → Classifier → Option (List Signal × Classifier)
  classify_new q path bytes sha256 c =
      let hits = os.yara_scan bytes in
      if not (is_empty hits)
      then some (
        map
            (λ _.
              new_signal q.now (codes "yara_match") (file_subject sha256) (codes "yara_scanner"))
            hits,
        c,
      )
      else Option.map {B = List Signal × Classifier}
          (λ a. (verdict_signals q.now path bytes sha256 a.0, record c { vt = a.1 }))
          (ask q path sha256 c.vt)

  -- A file that the event names
  unfoldable pub classify_path : Request → Text → Classifier → Option (List Signal × Classifier)
  classify_path q path c = elim (os.read_bytes path) [
    | none ↦ some ([], c)
    | some bytes ↦
        let sha256 = os.sha256_hex bytes in
        if member sha256 c.checked_hashes
        then some ([], c)
        else classify_new q path bytes sha256
            (record c { checked_hashes = add sha256 c.checked_hashes })
  ]

  -- `classify_file_event`; it has no result only if the lookup has none.
  unfoldable pub classify_file_event :
      Request → Event → Classifier → Option (Result (List Signal) × Classifier)
  classify_file_event q e c = elim (event_path e) [
    | err x ↦ some (err x, c)
    | ok none ↦ some (ok [], c)
    | ok (some path) ↦
        Option.map {B = Result (List Signal) × Classifier} (λ r. (ok r.0, r.1))
          (classify_path q path c)
  ]

  -- `clear_hash`
  unfoldable pub clear_hash : Text → Classifier → Classifier
  clear_hash sha256 c = record c {
    checked_hashes = sentinel_antivirus.Dict.discard (os.py.lower sha256) c.checked_hashes;
  }
