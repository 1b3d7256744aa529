-- ===== src/Examples/Reports.antt =====
-- A program that leaves a program behind, and one that does nothing.
use sentinel_antivirus.Prelude.{
  ℕ, ◌-◌, ◌/◌, ◌≡◌, refl, true, false, ◌||◌, not, some, List, [], ◌∷◌, arith, leb, if◌then◌else◌,
  nat_eq, pair_eq, any_of, is_empty, codes, text_eq, contains_text,
}
use sentinel_antivirus.Result.{ok}
use sentinel_antivirus.Sandbox.Report.{
  SandboxReport, Artifact, Host, emulation, hybrid, mentions, is_malicious, is_suspicious,
  to_signals,
}
use sentinel_antivirus.Sandbox.Runner.{run_binary, analyze}
use sentinel_antivirus.Sandbox.Report.Laws.{
  drops, highest, to_signals-is_suspicious, run_binary-is_malicious, analyze-hybrid,
}
use sentinel_antivirus.Examples.{plain_python}

abbrev dropped : Artifact
dropped = record {
  is_target = false;
  rel_name = codes "b.exe";
  suffix = codes ".exe";
  measured = some (40000, 100);
}

abbrev pub host : List Artifact → Host
host files = record {
  py = plain_python;
  resolve = λ p. p;
  file_name = λ p. p;
  exists = λ p. true;
  temp_dir = codes "/tmp/s";
  copy_denied = λ p q. false;
  is_left = λ p. false;
  run_isolated = λ p args. ok (record { failed = false; timed_out = false });
  files_of = λ p args. files;
  round2 = λ e. e;
  entropy_text = λ e. [];
}

-- The emulation of a program that only allocated memory
abbrev report : SandboxReport
report = record {
  target_path = codes "a";
  failed = false;
  analysis_mode = emulation;
  files_created = [];
  dropped_executables = [];
  max_entropy_observed = 0;
  threat_reasons = codes "Allocated executable memory (VirtualAlloc)" ∷ [];
  timed_out = false;
  findings = [];
  api_calls = [];
  evasion_techniques = [];
  unpacked_yara_matches = [];
  rwx_allocations = 1;
  risk_score = 25;
}

to_signals-is_suspicious_example :
    is_empty (to_signals (host []) 5 (some 7) report) ≡ not (is_suspicious plain_python report)
to_signals-is_suspicious_example = to_signals-is_suspicious (host []) 5 (some 7) report

run_binary-is_malicious_example :
    (r : SandboxReport) × ((run_binary (host (dropped ∷ [])) (codes "a") [] []).0 ≡ ok r)
    × (is_malicious plain_python r
        ≡ (any_of (drops plain_python) (dropped ∷ []) || leb 76000 (highest (dropped ∷ []))))
run_binary-is_malicious_example =
    run_binary-is_malicious (host (dropped ∷ [])) (codes "a") [] [] (λ e h. h) refl refl refl

-- Nothing remains of the emulation.
analyze-hybrid_example :
    (r : SandboxReport) × ((analyze (host []) hybrid report (codes "a") [] []).0 ≡ ok r)
    × (is_suspicious plain_python r ≡ false)
unfolding is_malicious mentions sentinel_antivirus.Prelude.contains_text
analyze-hybrid_example =
    analyze-hybrid (host []) report (codes "a") [] [] refl refl refl refl refl refl refl

report-IsSuspicious : is_suspicious plain_python report ≡ true
unfolding is_suspicious is_malicious mentions sentinel_antivirus.Prelude.contains_text
report-IsSuspicious = refl
