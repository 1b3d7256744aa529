-- ===== src/Sandbox/Report/Laws.antt =====
-- When a report gives signals, what makes an isolated run malicious, and what becomes of its
-- workspace.
use sentinel_antivirus.Prelude.{
  ◌≤◌, ℕ, max, ◌≡◌, refl, Bool, true, false, ◌&&◌, ◌||◌, not, Option, none, some, List, [], ◌∷◌,
  ◌++◌, arith, leb, if◌then◌else◌, ◌==◌, nat_eq, pair_eq, beq_refl, keep, any_of, is_empty, Text,
  codes, text_eq,
}
use sentinel_antivirus.Dict.{member}
use sentinel_antivirus.Builtins.{Python}
use sentinel_antivirus.Sandbox.Report.{
  malicious_words, hybrid, mentions, Exit, SandboxReport, Artifact, Host, is_malicious,
  is_suspicious, verdict_signal, evasion_signal, to_signals,
}
use sentinel_antivirus.Sandbox.Runner.{
  combine, nothing_found, analyze, detonation_report, Found, is_dropped, note_name, note_entropy,
  note_artifact, note_artifacts, rmtree, run_binary,
}
use sentinel_antivirus.Result.{ok}

-- A report gives a signal exactly when it is suspicious.
pub to_signals-is_suspicious :
    (host : Host) (now : ℕ) (pid : Option ℕ) (r : SandboxReport)
    → is_empty (to_signals host now pid r) ≡ not (is_suspicious host.py r)
unfolding to_signals verdict_signal evasion_signal is_suspicious is_malicious
to_signals-is_suspicious host now pid r = ground arith

keep-absent :
    (d : Text) (dirs : List Text) → member d dirs ≡ false → keep (λ e. not (e == d)) dirs ≡ dirs
unfolding member
keep-absent d [] h = refl
keep-absent d (e ∷ dirs) h = ground (arith, keep-absent d dirs)

rmtree-made :
    (host : Host) (d : Text) (dirs : List Text)
    → member d dirs ≡ false
    → rmtree host d (d ∷ dirs) ≡ (if host.is_left d then d ∷ dirs else dirs)
unfolding rmtree
rmtree-made host d dirs h = rw (beq_refl text_eq d, keep-absent d dirs h) refl

-- The workspace of an isolated run is left only where the system does not let it be removed,
-- whether the run raises or not.
run_binary-cleans :
    (host : Host) (path : Text) (args : List Text) (dirs : List Text)
    → member host.temp_dir dirs ≡ false
    → (run_binary host path args dirs).1 ≡ (
        if host.exists (host.resolve path) && host.is_left host.temp_dir
        then host.temp_dir ∷ dirs
        else dirs)
unfolding run_binary
run_binary-cleans host path args dirs h = ground (arith, rmtree-made host host.temp_dir dirs h)

is_empty-append : {A : Type 0} (xs : List A) (x : A) → is_empty (xs ++ x ∷ []) ≡ false
is_empty-append [] x = refl
is_empty-append (y ∷ xs) x = refl

-- The entropy of a file that counts, and the highest of several
abbrev pub entropy_of : Artifact → ℕ
entropy_of a =
    if a.is_target then 0 else elim a.measured [ none ↦ 0 | some (entropy, size) ↦ entropy ]

abbrev pub highest : List Artifact → ℕ
highest [] = 0
highest (a ∷ as') = max (entropy_of a) (highest as')

abbrev pub drops : Python → Artifact → Bool
drops py a = not a.is_target && is_dropped py a

-- What the walk keeps: each reason has its cause.
abbrev IsFounded : Found → Type 0
IsFounded f =
    (is_empty f.reasons || not (is_empty f.dropped_execs) || leb 76000 f.max_entropy) ≡ true

module _ (host : Host) where
  note_name_lem :
      (a : Artifact) (f : Found)
      → IsFounded f
      → IsFounded (note_name host.py a f)
        × ((note_name host.py a f).max_entropy ≡ f.max_entropy)
        × (is_empty (note_name host.py a f).dropped_execs
            ≡ (is_empty f.dropped_execs && not (is_dropped host.py a)))
  unfolding note_name
  note_name_lem a f h = ground (
    arith,
    is_empty-append f.dropped_execs a.rel_name,
    is_empty-append f.reasons (codes "Dropped executable payload: " ++ a.rel_name),
  )

  note_entropy_lem :
      (a : Artifact) (f : Found)
      → a.is_target ≡ false
      → IsFounded f
      → IsFounded (note_entropy host a f)
        × ((note_entropy host a f).max_entropy ≡ max f.max_entropy (entropy_of a))
        × ((note_entropy host a f).dropped_execs ≡ f.dropped_execs)
  unfolding note_entropy
  note_entropy_lem a f t h = ground arith

  note_artifact_lem :
      (a : Artifact) (f : Found)
      → IsFounded f
      → IsFounded (note_artifact host a f)
        × ((note_artifact host a f).max_entropy ≡ max f.max_entropy (entropy_of a))
        × (is_empty (note_artifact host a f).dropped_execs
            ≡ (is_empty f.dropped_execs && not (drops host.py a)))
  unfolding note_artifact
  note_artifact_lem a f h =
      ground (arith, note_name_lem a f, note_entropy_lem a (note_name host.py a f))

  note_artifacts_lem :
      (as' : List Artifact) (f : Found)
      → IsFounded f
      → IsFounded (note_artifacts host as' f)
        × ((note_artifacts host as' f).max_entropy ≡ max f.max_entropy (highest as'))
        × (is_empty (note_artifacts host as' f).dropped_execs
            ≡ (is_empty f.dropped_execs && not (any_of (drops host.py) as')))
  unfolding note_artifacts
  note_artifacts_lem [] f h = ground arith
  note_artifacts_lem (a ∷ as') f h =
      ground (arith, note_artifact_lem a f, note_artifacts_lem as' (note_artifact host a f))

  none-mention :
      (words : List Text) (reasons : List Text)
      → is_empty reasons ≡ true
      → any_of (mentions host.py words) reasons ≡ false
  none-mention words [] h = refl
  none-mention words (r ∷ reasons) h = cc

  detonation_report_lem :
      (target : Text) (exit : Exit) (f : Found)
      → ((e : ℕ) → 76000 ≤ e → 76000 ≤ host.round2 e)
      → IsFounded f
      → is_malicious host.py (detonation_report host target exit f)
        ≡ (not (is_empty f.dropped_execs) || leb 76000 (host.round2 f.max_entropy))
  unfolding detonation_report is_malicious
  detonation_report_lem target exit f up h =
      ground (arith, up f.max_entropy, none-mention malicious_words f.reasons)

  -- An isolated run that ends is malicious exactly when a file other than the program that it left
  -- has the suffix of a program, or the highest entropy of those files, rounded, reaches the bound:
  -- the texts of the reasons add nothing.
  pub run_binary-is_malicious :
      (path : Text) (args dirs : List Text) {exit : Exit}
      → ((e : ℕ) → 76000 ≤ e → 76000 ≤ host.round2 e)
      → host.exists (host.resolve path) ≡ true
      → host.copy_denied (host.resolve path) host.temp_dir ≡ false
      → host.run_isolated (host.resolve path) args ≡ ok exit
      → let files = host.files_of (host.resolve path) args in
        (r : SandboxReport) × ((run_binary host path args dirs).0 ≡ ok r)
        × (is_malicious host.py r
            ≡ (any_of (drops host.py) files || leb 76000 (host.round2 (highest files))))
  unfolding run_binary
  run_binary-is_malicious path args dirs {exit} up there copied ran =
      let files = host.files_of (host.resolve path) args in
      let found = note_artifacts host files nothing_found in
      let (founded, top, dropped) = note_artifacts_lem files nothing_found refl in
      (
        detonation_report host (host.resolve path) exit found,
        rw (run_binary, there, copied, ran) refl,
        ground
            (arith, founded, top, dropped, detonation_report_lem (host.resolve path) exit found up),
      )

  -- The hybrid mode forgets what the emulation rated: where the emulation is not malicious and
  -- shows no evasion, and the isolated run leaves no file, the report is not suspicious, whatever
  -- memory was allocated and whatever the risk.
  pub analyze-hybrid :
      (report : SandboxReport) (path : Text) (args dirs : List Text) {exit : Exit}
      → is_malicious host.py report ≡ false
      → report.evasion_techniques ≡ []
      → host.round2 0 ≡ 0
      → host.exists (host.resolve path) ≡ true
      → host.copy_denied (host.resolve path) host.temp_dir ≡ false
      → host.run_isolated (host.resolve path) args ≡ ok exit
      → host.files_of (host.resolve path) args ≡ []
      → (r : SandboxReport) × ((analyze host hybrid report path args dirs).0 ≡ ok r)
        × (is_suspicious host.py r ≡ false)
  unfolding analyze combine run_binary note_artifacts detonation_report is_suspicious is_malicious
  analyze-hybrid report path args dirs {exit} calm straight zero there copied ran quiet = (
    combine report (detonation_report host (host.resolve path) exit nothing_found),
    rw (analyze, calm, run_binary, there, copied, ran, quiet, note_artifacts) refl,
    ground arith,
  )
