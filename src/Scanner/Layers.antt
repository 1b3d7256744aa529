-- ===== src/Scanner/Layers.antt =====
-- What the layers of `scan_file` report, and what they leave alone.
use sentinel_antivirus.Prelude.{
  ℕ, zero, suc, ◌+◌, ◌*◌, ◌≤◌, min, ◌≡◌, refl, ◌⊎◌, inl, inr, Bool, true, false, ◌&&◌, not, Option,
  none, some, [], arith, if◌then◌else◌, nat_eq, pair_eq, Bool-cases, Option-cases, IfAny,
  IfAny-some, IfAny-map, Text, text_eq, IfAny-all,
}
use sentinel_antivirus.VirusTotal.Client.{Client, HashVerdict}
use sentinel_antivirus.StaticClassifier.{Request, PeFeatures}
use sentinel_antivirus.Sandbox.Emulator.{EmulationResult, evidence, evaluate_risk}
use sentinel_antivirus.Sandbox.Report.{emulation_report}
use sentinel_antivirus.Dict.{member}
use sentinel_antivirus.Scanner.Sample.{
  deceptive_doc_extensions, ThreatDetection, ScanTools, Sample, or_else, lower_suffix,
}
use sentinel_antivirus.Scanner.Program.{
  double_extension_threat, is_self_binary, is_protected, features_of, ml_threat, pe_threat,
  program_threat,
}
use sentinel_antivirus.Scanner.File.{
  yara_threat, vt_threat, score_or, report_threat, is_exec_format, emulate_binary, sandbox_threat,
  local_threat, ask_vt, find_threat,
}

-- What a sum of evidence can be
parts-bounds :
    (a b c d : Bool) (n : ℕ)
    → (min 100 (
          (if a then 0 else 85)
          + (if b then 45 else 0)
          + (if c then 0 else 35)
          + (if d then 25 else 0)
          + min 40 (n * 20))
        ≡ 0)
      ⊎ (20
          ≤ min 100 (
              (if a then 0 else 85)
              + (if b then 45 else 0)
              + (if c then 0 else 35)
              + (if d then 25 else 0)
              + min 40 (n * 20)))
parts-bounds false b c d n = inr (ground arith)
parts-bounds true true c d n = inr (ground arith)
parts-bounds true false false d n = inr (ground arith)
parts-bounds true false true true n = inr (ground arith)
parts-bounds true false true false zero = inl refl
parts-bounds true false true false (suc n) = inr (ground arith)

-- A rating is 0, or from 20 to 100 points.
evaluate_risk-bounds :
    (r : EmulationResult) → ((evaluate_risk r).risk_score ≡ 0) ⊎ (20 ≤ (evaluate_risk r).risk_score)
unfolding evaluate_risk evidence
evaluate_risk-bounds r = parts-bounds _ _ _ _ _

evaluate_risk-le : (r : EmulationResult) → (evaluate_risk r).risk_score ≤ 100
unfolding evaluate_risk
evaluate_risk-le r = omega arith

-- A detection about a file: not yet quarantined, and with a score from 20 to 100 points, in
-- ten-thousandths
abbrev pub IsAbout : Sample → ThreatDetection → Type 0
IsAbout f t =
    (200000 ≤ t.score)
    × (t.score ≤ 1000000)
    × (t.file_path ≡ f.path)
    × (t.sha256 ≡ f.sha256)
    × (t.quarantined ≡ false)
    × (t.is_memory ≡ false)

IfAny-or_else :
    {A : Type 0} (P : A → Type 0) (o p : Option A) → IfAny P o → IfAny P p → IfAny P (or_else o p)
IfAny-or_else P none p h k = k
IfAny-or_else P (some a) p h k = h

score_or-bounds :
    (risk : ℕ)
    → (risk ≡ 0) ⊎ (20 ≤ risk)
    → risk ≤ 100
    → (200000 ≤ score_or risk) × (score_or risk ≤ 1000000)
score_or-bounds risk (inl e) h = ground arith
score_or-bounds risk (inr e) h = ground arith

module _ (os : ScanTools) where
  -- A rated report gives a score in the range.
  report_threat-IsAbout :
      (f : Sample) (path : Text) (failed : Bool) (r : EmulationResult)
      → IfAny
          (IsAbout f)
          (report_threat os f (emulation_report os.host path failed (evaluate_risk r)))
  unfolding report_threat emulation_report
  report_threat-IsAbout f path failed r = ground (
    arith,
    evaluate_risk-le r,
    score_or-bounds (evaluate_risk r).risk_score (evaluate_risk-bounds r) (evaluate_risk-le r),
  )

  yara_threat-IsAbout : (f : Sample) → IfAny (IsAbout f) (yara_threat os f)
  unfolding yara_threat
  yara_threat-IsAbout f = ground arith

  vt_threat-IsAbout : (f : Sample) (v : Option HashVerdict) → IfAny (IsAbout f) (vt_threat os f v)
  unfolding vt_threat
  vt_threat-IsAbout f none = tt
  vt_threat-IsAbout f (some v) = ground arith

  double-IsAbout : (f : Sample) → IfAny (IsAbout f) (double_extension_threat os f)
  unfolding double_extension_threat
  double-IsAbout f = ground arith

  pe_threat-IsAbout :
      (f : Sample) (features : PeFeatures) → IfAny (IsAbout f) (pe_threat os f features)
  unfolding pe_threat ml_threat
  pe_threat-IsAbout f features = ground arith

  program_threat-IsAbout : (f : Sample) → IfAny (IsAbout f) (program_threat os f)
  unfolding program_threat
  program_threat-IsAbout f = elim (Option-cases (features_of os f)) [
    | inl other ↦ rw (program_threat, other) tt
    | inr (features, pe) ↦ rw (program_threat, pe) (pe_threat-IsAbout f features)
  ]

  sandbox_threat-IsAbout :
      (dynamic_analysis : Bool) (f : Sample)
      → IfAny (IsAbout f) (sandbox_threat os dynamic_analysis f)
  unfolding sandbox_threat emulate_binary
  sandbox_threat-IsAbout dynamic_analysis f =
      elim (Bool-cases (dynamic_analysis && (is_exec_format os f && not (is_self_binary os f)))) [
        | inr left ↦ rw (sandbox_threat, left) tt
        | inl run ↦ elim (Option-cases (os.emulate f.path f.bytes)) [
          | inl raised ↦ rw (sandbox_threat, run, emulate_binary, raised) tt
          | inr ((r, failed), ended) ↦
              rw (sandbox_threat, run, emulate_binary, ended)
                (report_threat-IsAbout f f.path failed r)
        ]
      ]

  local_threat-IsAbout :
      (dynamic_analysis : Bool) (f : Sample)
      → IfAny (IsAbout f) (local_threat os dynamic_analysis f)
  unfolding local_threat
  local_threat-IsAbout dynamic_analysis f =
      IfAny-or_else (IsAbout f) (double_extension_threat os f) _ (double-IsAbout f) (
        IfAny-or_else (IsAbout f) (program_threat os f) _ (program_threat-IsAbout f)
          (sandbox_threat-IsAbout dynamic_analysis f))

  threat-IsAbout :
      (q : Request) (dynamic_analysis : Bool) (f : Sample) (vt : Option Client)
      → IfAny
          (λ (a : Option ThreatDetection × Option Client). IfAny (IsAbout f) a.0)
          (find_threat os q dynamic_analysis f vt)
  unfolding find_threat
  threat-IsAbout q dynamic_analysis f vt = elim (Option-cases (yara_threat os f)) [
    | inr (t, hit) ↦ rw (find_threat, hit) (IfAny-some (IsAbout f) (yara_threat-IsAbout f) hit)
    | inl quiet ↦
        rw (find_threat, quiet)
          (IfAny-map (λ (a : Option ThreatDetection × Option Client). IfAny (IsAbout f) a.0) _
            (ask_vt os q f vt)
            (IfAny-all _ (ask_vt os q f vt) (λ a.
              IfAny-or_else (IsAbout f) (vt_threat os f a.0) _ (vt_threat-IsAbout f a.0)
                (local_threat-IsAbout dynamic_analysis f))))
  ]

  -- Whatever layer finds a threat, it is about the file and its hash, is not yet quarantined, and
  -- its score is from 20 to 100 points.
  pub find_threat-IsAbout :
      (q : Request) (dynamic_analysis : Bool) (f : Sample) (vt : Option Client)
      {r : Option ThreatDetection × Option Client}
      → find_threat os q dynamic_analysis f vt ≡ some r
      → IfAny (IsAbout f) r.0
  find_threat-IsAbout q dynamic_analysis f vt {r} e =
      IfAny-some (λ a. IfAny (IsAbout f) a.0) (threat-IsAbout q dynamic_analysis f vt) e

  pe_threat-protected :
      (f : Sample) (features : PeFeatures)
      → is_protected os f ≡ true
      → member (lower_suffix os f) deceptive_doc_extensions ≡ false
      → pe_threat os f features ≡ none
  unfolding pe_threat ml_threat
  pe_threat-protected f features safe suffix = rw (pe_threat, suffix, safe) (ground arith)

  program_threat-protected :
      (f : Sample)
      → is_protected os f ≡ true
      → member (lower_suffix os f) deceptive_doc_extensions ≡ false
      → program_threat os f ≡ none
  unfolding program_threat
  program_threat-protected f safe suffix = elim (Option-cases (features_of os f)) [
    | inl other ↦ rw (program_threat, other) refl
    | inr (features, pe) ↦ rw (program_threat, pe) (pe_threat-protected f features safe suffix)
  ]

  self-IsProtected : (f : Sample) → is_self_binary os f ≡ true → is_protected os f ≡ true
  self-IsProtected f self = ground arith

  sandbox_threat_self :
      (dynamic_analysis : Bool) (f : Sample)
      → is_self_binary os f ≡ true
      → sandbox_threat os dynamic_analysis f ≡ none
  unfolding sandbox_threat
  sandbox_threat_self dynamic_analysis f self = rw (sandbox_threat, self) (ground arith)

  -- A binary of Sentinel is reported only by its content, by VirusTotal or by its name: where no
  -- YARA rule matches, there is no client and its extensions are those of a program, nothing is
  -- found in it, whatever its sections, the model and the emulator say.
  pub find_threat_self :
      (q : Request) (dynamic_analysis : Bool) (f : Sample)
      → is_self_binary os f ≡ true
      → os.classifier.yara_scan f.bytes ≡ []
      → double_extension_threat os f ≡ none
      → member (lower_suffix os f) deceptive_doc_extensions ≡ false
      → find_threat os q dynamic_analysis f none ≡ some (none, none)
  unfolding find_threat yara_threat ask_vt vt_threat local_threat
  find_threat_self q dynamic_analysis f self quiet name suffix =
      rw
        (
          find_threat,
          yara_threat,
          quiet,
          name,
          program_threat-protected f (self-IsProtected f self) suffix,
          sandbox_threat_self dynamic_analysis f self,
        )
        refl
