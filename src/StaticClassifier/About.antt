-- ===== src/StaticClassifier/About.antt =====
-- What the signals of the static classifier are about.
use sentinel_antivirus.Prelude.{
  ℕ, ◌-◌, ◌≡◌, refl, inl, inr, true, ◌&&◌, not, Option, none, some, List, [], ◌∷◌, map, arith,
  if◌then◌else◌, ◌==◌, nat_eq, pair_eq, Bool-cases, Option-cases, is_empty, All, IfAny, IfAny-some,
  IfAny-map, IfAny-all, Text, codes, text_beq, text_eq,
}
use sentinel_antivirus.Dict.{member, has_key}
use sentinel_antivirus.Result.{Result, ok, err}
use sentinel_antivirus.Schema.{Event}
use sentinel_antivirus.Scoring.Signals.{Signal, new_signal, weights}
use sentinel_antivirus.VirusTotal.Client.{Verdict, malicious, clean, unknown, HashVerdict}
use sentinel_antivirus.StaticClassifier.{
  PeFeatures, Tools, Request, Classifier, is_deceptive, event_path, file_subject, found,
  data_suffixes, pe_signals, local_signals, verdict_signals, ask, classify_new, classify_path,
  classify_file_event,
}

module _ (os : Tools) where
  -- A signal about a file, of a kind that has a weight
  abbrev pub IsAbout : Text → Signal → Type 0
  IsAbout sha256 g = (g.subject ≡ file_subject os sha256) × (has_key g.kind weights ≡ true)

  found-IsAbout :
      (now : ℕ) (kind engine sha256 : Text)
      → has_key kind weights ≡ true
      → All (IsAbout sha256) (found os now kind engine sha256)
  found-IsAbout now kind engine sha256 k = ((refl, k), tt)

  pe_signals-IsAbout :
      (now : ℕ) (path bytes sha256 : Text) (f : PeFeatures)
      → All (IsAbout sha256) (pe_signals os now path bytes sha256 f)
  unfolding pe_signals sentinel_antivirus.Dict.lookup sentinel_antivirus.Prelude.text_beq
  pe_signals-IsAbout now path bytes sha256 f =
      elim (Bool-cases (member (os.py.lower (os.suffix path)) data_suffixes)) [
        | inl masked ↦
            rw (pe_signals, masked)
              (found-IsAbout now (codes "pe_masquerade") (codes "static_classifier") sha256 refl)
        | inr plain ↦
            elim (Bool-cases (
              os.pe_is_suspicious f bytes
              && not (f.has_signature && f.suspicious_section_count == 0))) [
                | inl odd ↦
                    rw (pe_signals, plain, odd)
                      (found-IsAbout now (codes "vt_unknown_suspicious_pe")
                        (codes "static_classifier") sha256 refl)
                | inr usual ↦ rw (pe_signals, plain, usual) tt
              ]
      ]

  local_signals-IsAbout :
      (now : ℕ) (path bytes sha256 : Text)
      → All (IsAbout sha256) (local_signals os now path bytes sha256)
  unfolding local_signals sentinel_antivirus.Dict.lookup sentinel_antivirus.Prelude.text_beq
  local_signals-IsAbout now path bytes sha256 =
      elim (Bool-cases (is_deceptive (os.py.lower (os.file_name path)))) [
        | inl deceptive ↦
            rw (local_signals, deceptive)
              (found-IsAbout now (codes "pe_double_extension") (codes "static_classifier") sha256
                refl)
        | inr plain ↦ elim (Option-cases (os.extract_pe_features path bytes)) [
          | inl other ↦ rw (local_signals, plain, other) tt
          | inr (f, pe) ↦ rw (local_signals, plain, pe) (pe_signals-IsAbout now path bytes sha256 f)
        ]
      ]

  verdict_signals-IsAbout :
      (now : ℕ) (path bytes sha256 : Text) (v : Option HashVerdict)
      → All (IsAbout sha256) (verdict_signals os now path bytes sha256 v)
  unfolding verdict_signals sentinel_antivirus.Dict.lookup sentinel_antivirus.Prelude.text_beq
  verdict_signals-IsAbout now path bytes sha256 none = local_signals-IsAbout now path bytes sha256
  verdict_signals-IsAbout now path bytes sha256 (some v) = go v.verdict
    where
      go :
          (d : Verdict)
          → All
              (IsAbout sha256)
              (verdict_signals os now path bytes sha256 (some (record v { verdict = d })))
      go malicious = found-IsAbout now (codes "vt_positive") (codes "static_classifier") sha256 refl
      go clean = tt
      go unknown = local_signals-IsAbout now path bytes sha256

  matches-IsAbout :
      (now : ℕ) (sha256 : Text) (hits : List Text)
      → All (IsAbout sha256) (
          map
            (λ _.
              new_signal now (codes "yara_match") (file_subject os sha256) (codes "yara_scanner"))
            hits)
  unfolding sentinel_antivirus.Dict.lookup sentinel_antivirus.Prelude.text_beq
  matches-IsAbout now sha256 [] = tt
  matches-IsAbout now sha256 (hit ∷ hits) = ((refl, refl), matches-IsAbout now sha256 hits)

  classify_new-IsAbout :
      (q : Request) (path bytes sha256 : Text) (c : Classifier)
      → IfAny (λ r. All (IsAbout sha256) r.0) (classify_new os q path bytes sha256 c)
  unfolding classify_new
  classify_new-IsAbout q path bytes sha256 c = elim (Bool-cases (is_empty (os.yara_scan bytes))) [
    | inr hits ↦ rw (classify_new, hits) (matches-IsAbout q.now sha256 (os.yara_scan bytes))
    | inl quiet ↦
        rw (classify_new, quiet)
          (IfAny-map (λ r. All (IsAbout sha256) r.0) _ (ask os q path sha256 c.vt)
            (IfAny-all _ (ask os q path sha256 c.vt)
              (λ a. verdict_signals-IsAbout q.now path bytes sha256 a.0)))
  ]

  classify_path-IsAbout :
      (q : Request) (path : Text) (c : Classifier) {bytes : Text}
      → os.read_bytes path ≡ some bytes
      → IfAny (λ r. All (IsAbout (os.sha256_hex bytes)) r.0) (classify_path os q path c)
  unfolding classify_path
  classify_path-IsAbout q path c {bytes} read =
      elim (Bool-cases (member (os.sha256_hex bytes) c.checked_hashes)) [
        | inl old ↦ rw (classify_path, read, old) tt
        | inr new ↦
            rw (classify_path, read, new)
              (classify_new-IsAbout q path bytes (os.sha256_hex bytes) _)
      ]

  -- What a classification returns is about one file.
  abbrev AreAbout : Text → Result (List Signal) × Classifier → Type 0
  AreAbout sha256 (ok gs, c) = All (IsAbout sha256) gs
  AreAbout sha256 (err x, c) = Unit

  -- Every signal that an event about a readable file gives is about the file's hash, and of a kind
  -- that has a weight.
  pub classify_file_event-IsAbout :
      (q : Request) (e : Event) (c c' : Classifier) (gs : List Signal) {path bytes : Text}
      → event_path e ≡ ok (some path)
      → os.read_bytes path ≡ some bytes
      → classify_file_event os q e c ≡ some (ok gs, c')
      → All (IsAbout (os.sha256_hex bytes)) gs
  unfolding classify_file_event
  classify_file_event-IsAbout q e c c' gs {path} {bytes} p read h =
      let about : IfAny (AreAbout (os.sha256_hex bytes)) (classify_file_event os q e c) =
        rw (classify_file_event, p)
          (IfAny-map (AreAbout (os.sha256_hex bytes)) _ (classify_path os q path c)
            (classify_path-IsAbout q path c read)) in
      IfAny-some (AreAbout (os.sha256_hex bytes)) about h
