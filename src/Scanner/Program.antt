-- ===== src/Scanner/Program.antt =====
-- The layers of `scan_file` of sentinel/engine/scanner.py that look at the name and at the features
-- of a program
use sentinel_antivirus.Prelude.{
  ◌+◌, ◌*◌, min, Bool, true, false, ◌&&◌, ◌||◌, not, Option, none, some, [], ◌∷◌, ltb, leb,
  if◌then◌else◌, nat_eq, pair_eq, any_of, codes, text_eq, starts_with,
}
use sentinel_antivirus.Dict.{member}
use sentinel_antivirus.StaticClassifier.{PeFeatures, split_dots, extensions}
use sentinel_antivirus.Scanner.Sample.{
  medium, deceptive_doc_extensions, high, executable_extensions, sentinel_self_binaries, threat_of,
  lower_suffix, lower_name, Sample, ThreatDetection, ScanTools,
}

module _ (os : ScanTools) where
  -- 3. A document's extension before a program's
  unfoldable pub double_extension_threat : Sample → Option ThreatDetection
  double_extension_threat f = elim (extensions (split_dots (lower_name os f))) [
    | none ↦ none
    | some (penultimate, final) ↦
        if member (b'.' ∷ final) executable_extensions
          && member (b'.' ∷ penultimate) deceptive_doc_extensions
        then some
            (threat_of f (codes "Heuristic:PE.DoubleExtension") 800000 high (codes "pe_classifier"))
        else none
  ]

  abbrev pub is_self_binary : Sample → Bool
  is_self_binary f = member (lower_name os f) sentinel_self_binaries

  abbrev pub is_system_binary : Sample → Bool
  is_system_binary f = elim os.windows_dir [
    | none ↦ false
    | some dir ↦
        any_of (λ name. os.is_relative_to (os.resolve f.path) (os.child dir name))
          (codes "System32" ∷ codes "SysWOW64" ∷ codes "WinSxS" ∷ [])
  ]

  -- A binary of the system or of Sentinel itself
  abbrev pub is_protected : Sample → Bool
  is_protected f = is_system_binary f || is_self_binary f

  -- The features of a program, if it is one
  unfoldable pub features_of : Sample → Option PeFeatures
  features_of f =
      if member (lower_suffix os f) executable_extensions || starts_with f.bytes (codes "MZ")
      then if starts_with f.bytes (codes "MZ")
        then elim (os.triage_is_pe f.bytes) [
          | none ↦ os.classifier.extract_pe_features f.path f.bytes
          | some is_pe ↦ if is_pe then os.classifier.extract_pe_features f.path f.bytes else none
        ]
        else os.classifier.extract_pe_features f.path f.bytes
      else none

  -- A signature that keeps the model from being asked; a check that raises counts as one.
  unfoldable pub is_trusted_signed : Sample → PeFeatures → Bool
  is_trusted_signed f features =
      features.has_signature
      && elim (os.verify_pe_signature f.path) [ none ↦ true | some s ↦ s.is_valid && s.is_trusted ]

  -- What the model says
  unfoldable pub ml_threat : Sample → PeFeatures → Option ThreatDetection
  ml_threat f features =
      if is_protected f || is_trusted_signed f features
      then none
      else let prob = os.malware_probability features f.bytes in
        if leb 8500 prob
        then some (
            threat_of f (codes "ML:PE.MalwareInference") (min 950000 (700000 + prob * 25)) high
              (codes "ember2024_ml"))
        else none

  -- The checks of a program's features
  unfoldable pub pe_threat : Sample → PeFeatures → Option ThreatDetection
  pe_threat f features =
      if member (lower_suffix os f) deceptive_doc_extensions
      then some (
          threat_of f (codes "Heuristic:PE.MasqueradingExtension") 850000 high
            (codes "pe_classifier"))
      else if ltb 0 features.suspicious_section_count
          && (not features.has_signature && not (is_protected f))
      then some
          (threat_of f (codes "Heuristic:PE.SuspiciousPacker") 750000 high (codes "pe_classifier"))
      else if ltb 78500 features.max_section_entropy
          && (not features.has_signature && not (is_protected f))
      then some (
          threat_of f (codes "Heuristic:PE.HighEntropySection") 700000 medium
            (codes "pe_classifier"))
      else ml_threat f features

  unfoldable pub program_threat : Sample → Option ThreatDetection
  program_threat f = elim (features_of f) [ none ↦ none | some features ↦ pe_threat f features ]
