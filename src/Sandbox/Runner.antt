-- ===== src/Sandbox/Runner.antt =====
-- `run_binary` and `analyze` of sentinel/sandbox/runner.py: the isolated run and what it leaves in
-- its workspace, and the mode that a program is analyzed in.
use sentinel_antivirus.Prelude.{
  ℕ, max, Bool, ◌&&◌, ◌||◌, not, none, some, List, [], ◌∷◌, ◌++◌, map, leb, if◌then◌else◌, ◌==◌,
  nat_eq, keep, is_empty, Text, codes, text_eq,
}
use sentinel_antivirus.Result.{Result, ok, err, os_error, runtime_error}
use sentinel_antivirus.Dict.{member}
use sentinel_antivirus.Builtins.{Python}
use sentinel_antivirus.Sandbox.Report.{
  Mode, emulation, detonation, hybrid, Finding, SandboxReport, Artifact, Exit, Host, mentions,
  is_malicious,
}

-- `EXECUTABLE_DROPPED_EXTENSIONS`
abbrev pub executable_dropped_extensions : List Text
executable_dropped_extensions =
    codes ".exe"
    ∷ codes ".dll"
    ∷ codes ".sys"
    ∷ codes ".bat"
    ∷ codes ".cmd"
    ∷ codes ".ps1"
    ∷ codes ".vbs"
    ∷ codes ".js"
    ∷ codes ".hta"
    ∷ []

-- What the walk over the workspace has found so far
pub record Found : Type 0 where
  pub files_created : List Text
  pub dropped_execs : List Text
  pub max_entropy : ℕ
  pub reasons : List Text

abbrev pub is_dropped : Python → Artifact → Bool
is_dropped py a = member (py.lower a.suffix) executable_dropped_extensions

-- The check of a file's extension
unfoldable pub note_name : Python → Artifact → Found → Found
note_name py a f =
    let f' = record f { files_created = f.files_created ++ a.rel_name ∷ [] } in
    if is_dropped py a
    then record f' {
      dropped_execs = f.dropped_execs ++ a.rel_name ∷ [];
      reasons = f.reasons ++ (codes "Dropped executable payload: " ++ a.rel_name) ∷ [];
    }
    else f'

-- The check of its entropy
unfoldable pub note_entropy : Host → Artifact → Found → Found
note_entropy host a f = elim a.measured [
  | none ↦ f
  | some (entropy, size) ↦
      let f' = record f { max_entropy = max f.max_entropy entropy } in
      if leb 76000 entropy && leb 512 size
      then record f' {
        reasons =
            f.reasons
            ++ (codes "High-entropy file generated ("
                ++ (a.rel_name
                    ++ (codes ", entropy=" ++ (host.entropy_text entropy ++ codes " bits/byte)"))))
              ∷ [];
      }
      else f'
]

unfoldable pub note_artifact : Host → Artifact → Found → Found
unfolding note_name note_entropy
note_artifact host a f = if a.is_target then f else note_entropy host a (note_name host.py a f)

unfoldable pub note_artifacts : Host → List Artifact → Found → Found
note_artifacts host [] f = f
note_artifacts host (a ∷ as') f = note_artifacts host as' (note_artifact host a f)

abbrev pub nothing_found : Found
nothing_found = record { files_created = []; dropped_execs = []; max_entropy = 0; reasons = [] }

abbrev heuristic_finding : Python → Text → Finding
heuristic_finding py reason = record {
  category = codes "Heuristic";
  detail = reason;
  severity =
      if mentions py (codes "malicious" ∷ codes "high-entropy" ∷ codes "dropped" ∷ []) reason
      then codes "HIGH"
      else codes "MEDIUM";
}

-- The report of `run_binary` on what the walk found
unfoldable pub detonation_report : Host → Text → Exit → Found → SandboxReport
detonation_report host target exit f = record {
  target_path = target;
  failed = exit.failed;
  analysis_mode = detonation;
  files_created = f.files_created;
  dropped_executables = f.dropped_execs;
  max_entropy_observed = host.round2 f.max_entropy;
  threat_reasons = f.reasons;
  timed_out = exit.timed_out;
  findings = map (heuristic_finding host.py) f.reasons;
  api_calls = [];
  evasion_techniques = [];
  unpacked_yara_matches = [];
  rwx_allocations = 0;
  risk_score =
      if not (is_empty f.dropped_execs) || leb 76000 f.max_entropy
      then 85
      else if is_empty f.reasons
      then 0
      else 35;
}

-- `shutil.rmtree(temp_dir, ignore_errors=True)`, after which a directory that it cannot remove is
-- still there
unfoldable pub rmtree : Host → Text → List Text → List Text
rmtree host dir dirs = if host.is_left dir then dirs else keep (λ d. not (d == dir)) dirs

-- `run_binary`, with the workspaces that exist
unfoldable pub run_binary : Host → Text → List Text → List Text → Result SandboxReport × List Text
unfolding rmtree
run_binary host path args dirs =
    let target = host.resolve path in
    if not (host.exists target)
    then (err os_error, dirs)
    else let made = host.temp_dir ∷ dirs in
      if host.copy_denied target host.temp_dir
      then (err runtime_error, rmtree host host.temp_dir made)
      else elim (host.run_isolated target args) [
        | err e ↦ (err e, rmtree host host.temp_dir made)
        | ok exit ↦ (
          ok (
              detonation_report host target exit
                (note_artifacts host (host.files_of target args) nothing_found)),
          rmtree host host.temp_dir made,
        )
      ]

-- What the hybrid mode keeps of the emulation
unfoldable pub combine : SandboxReport → SandboxReport → SandboxReport
combine report detonated = record detonated {
  api_calls = report.api_calls;
  evasion_techniques = report.evasion_techniques;
  analysis_mode = hybrid;
  findings = detonated.findings ++ report.findings;
}

abbrev pub map_ok : (SandboxReport → SandboxReport) → Result SandboxReport → Result SandboxReport
map_ok f (ok r) = ok (f r)
map_ok f (err e) = err e

-- `analyze`, for the report of `emulate_binary`
unfoldable pub analyze :
    Host → Mode → SandboxReport → Text → List Text → List Text → Result SandboxReport × List Text
unfolding combine
analyze host emulation report path args dirs = (ok report, dirs)
analyze host detonation report path args dirs = run_binary host path args dirs
analyze host hybrid report path args dirs =
    if is_malicious host.py report
    then (ok report, dirs)
    else let (outcome, left) = run_binary host path args dirs in
      (map_ok (combine report) outcome, left)
