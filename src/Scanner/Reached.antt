-- ===== src/Scanner/Reached.antt =====
-- What a scan has done, whatever calls came in between.
use sentinel_antivirus.Prelude.{
  ℕ, ◌≡◌, refl, ap, ◌∙◌, inl, inr, Bool, true, false, ◌&&◌, ◌||◌, not, Option, none, some, List, [],
  ◌∷◌, ◌++◌, arith, if◌then◌else◌, nat_eq, pair_eq, length, is_empty, Text, text_eq,
}
use sentinel_antivirus.Result.{Result, ok, err, Result-cases}
use sentinel_antivirus.MemoryScanner.Region.{MemoryThreat}
use mathlib.Core.Path.{subst}
use mathlib.Core.List.{append_assoc}
use sentinel_antivirus.Scanner.Sample.{ThreatDetection}
use sentinel_antivirus.Scanner.Control.{
  scanning, is_scanning, ScanStatus, completed, cancelled, error, Control, begin,
}
use sentinel_antivirus.Scanner.Scan.{
  note_memory, summary_of, ScanType, quick, full, custom, no_progress, start, prepare, new_run,
  Progress, Phase, fetching, holding, over, Run, Move, call_cancel, call_pause, call_resume,
  advance, finish, scan_one, scan_held, proceed, step, run, scan_all,
}

abbrev is_completed : ScanStatus → Bool
is_completed completed = true
is_completed _ = false

-- The summary of a scan that is over tells of its progress, and of all files if the scan is
-- completed.
abbrev pub Tells : Phase → Progress → List Text → Type 0
Tells fetching p left = Unit
Tells holding p left = Unit
Tells (over s) p left =
    (s.files_scanned ≡ p.files_scanned)
    × (s.threats ≡ p.threats)
    × (s.threats_found ≡ length p.threats)
    × ((is_completed s.status && not (is_empty left)) ≡ false)

-- What holds of a result that is no error
abbrev pub IfOk : {A : Type 0} → (A → Type 0) → Result A → Type 0
IfOk P (ok a) = P a
IfOk P (err e) = Unit

pub IfOk-ok : {A : Type 0} (P : A → Type 0) {o : Result A} {a : A} → IfOk P o → o ≡ ok a → P a
IfOk-ok P h e = subst (IfOk P) e h

-- The steps that a scan of these files takes: two for each, and one for its end
abbrev pub rounds : List Text → List Move
rounds [] = advance ∷ []
rounds (x ∷ files) = advance ∷ (advance ∷ rounds files)

module _ {S : Type 0} (look : Text → S → Option ThreatDetection × S) (size : Text → Option ℕ) where
  -- Where a scan of these files can be: it has scanned some first of them, one after the other.
  abbrev pub Reached : List Text → Progress × S → Run S → Type 0
  Reached files q r =
      (scanned : List Text) × (scanned ++ r.remaining ≡ files)
      × (scan_all look size scanned q ≡ (r.progress, r.scanner))
      × Tells r.phase r.progress r.remaining

  scan_all-append :
      (xs : List Text) (x : Text) (q : Progress × S)
      → scan_all look size (xs ++ x ∷ []) q ≡ scan_one look size x (scan_all look size xs q)
  unfolding scan_all
  scan_all-append [] x q = refl
  scan_all-append (y ∷ xs) x q = scan_all-append xs x (scan_one look size y q)

  finish-Tells :
      (status : ScanStatus) (r : Run S)
      → (is_completed status && (not (r.control.is_cancelled) && not (is_empty r.remaining)))
        ≡ false
      → Tells (finish status r).phase r.progress r.remaining
  unfolding finish
  finish-Tells status r h = (refl, refl, refl, ground arith)

  finish-Reached :
      (status : ScanStatus) (files : List Text) (q : Progress × S) (r : Run S) (scanned : List Text)
      → scanned ++ r.remaining ≡ files
      → scan_all look size scanned q ≡ (r.progress, r.scanner)
      → (is_completed status && (not (r.control.is_cancelled) && not (is_empty r.remaining)))
        ≡ false
      → Reached files q (finish status r)
  unfolding finish
  finish-Reached status files q r scanned all done h = (scanned, all, done, finish-Tells status r h)

  held-Reached :
      (left : List Text) (files : List Text) (q : Progress × S) (r : Run S) (scanned : List Text)
      → scanned ++ left ≡ files
      → r.remaining ≡ left
      → scan_all look size scanned q ≡ (r.progress, r.scanner)
      → Reached files q (scan_held look size left r)
  held-Reached [] files q r scanned all same done =
      finish-Reached completed files q r scanned (ap (λ xs. scanned ++ xs) same ∙ all) done
        (ground arith)
  held-Reached (x ∷ left) files q r scanned all same done = (
    scanned ++ x ∷ [],
    append_assoc scanned (x ∷ []) left ∙ all,
    scan_all-append scanned x q ∙ ap (scan_one look size x) done,
    tt,
  )

  fetched-Reached :
      (last : Bool) (files : List Text) (q : Progress × S) (r : Run S)
      → (r.control.is_cancelled || is_empty r.remaining) ≡ last
      → Reached files q r
      → Reached files q (if last then finish completed r else record r { phase = holding })
  fetched-Reached true files q r e (scanned, all, done, tells) =
      finish-Reached completed files q r scanned all done (ground arith)
  fetched-Reached false files q r e (scanned, all, done, tells) = (scanned, all, done, tt)

  waited-Reached :
      (free gone : Bool) (files : List Text) (q : Progress × S) (r : Run S)
      → Reached files q r
      → Reached files q (
          if not free
          then r
          else if gone
          then finish cancelled r
          else scan_held look size r.remaining r)
  waited-Reached false gone files q r reached = reached
  waited-Reached true true files q r (scanned, all, done, tells) =
      finish-Reached cancelled files q r scanned all done refl
  waited-Reached true false files q r (scanned, all, done, tells) =
      held-Reached r.remaining files q r scanned all refl done

  proceed-Reached :
      (p : Phase) (files : List Text) (q : Progress × S) (r : Run S)
      → Reached files q r
      → Reached files q (proceed look size p r)
  unfolding proceed
  proceed-Reached fetching files q r reached = fetched-Reached _ files q r refl reached
  proceed-Reached holding files q r reached =
      waited-Reached r.control.is_unpaused r.control.is_cancelled files q r reached
  proceed-Reached (over s) files q r reached = reached

  step-Reached :
      (m : Move) (files : List Text) (q : Progress × S) (r : Run S)
      → Reached files q r
      → Reached files q (step look size m r)
  unfolding step
  step-Reached call_cancel files q r h = h
  step-Reached call_pause files q r h = h
  step-Reached call_resume files q r h = h
  step-Reached advance files q r h = proceed-Reached r.phase files q r h

  run-Reached :
      (ms : List Move) (files : List Text) (q : Progress × S) (r : Run S)
      → Reached files q r
      → Reached files q (run look size ms r)
  unfolding run
  run-Reached [] files q r h = h
  run-Reached (m ∷ ms) files q r h =
      run-Reached ms files q (step look size m r) (step-Reached m files q r h)

  prepare-Reached :
      (kind : ScanType) (progress_raises : Bool) (raises : ThreatDetection → Bool)
      (memory : Option (List MemoryThreat)) (files : List Text) (s : S) (c : Control)
      → let r = prepare kind progress_raises raises memory (new_run kind files s c) in
        Reached files (r.progress, s) r
  unfolding prepare scan_all finish
  prepare-Reached full progress_raises raises memory files s c = ([], refl, refl, tt)
  prepare-Reached custom progress_raises raises memory files s c = ([], refl, refl, tt)
  prepare-Reached quick true raises memory files s c =
      finish-Reached error files (no_progress, s) (new_run quick files s c) [] refl refl refl
  prepare-Reached quick false raises none files s c = ([], refl, refl, tt)
  prepare-Reached quick false raises (some ts) files s c = ([], refl, refl, tt)

  -- A scan that starts has scanned nothing; it is over already only where a callback raised.
  start-Reached :
      (kind : ScanType) (progress_raises : Bool) (raises : ThreatDetection → Bool)
      (memory : Option (List MemoryThreat)) (files : List Text) (s : S) (c : Control)
      → IfOk
          (λ (r : Run S). Reached files (r.progress, s) r)
          (start kind progress_raises raises memory files s c)
  unfolding start scan_all
  start-Reached kind progress_raises raises memory files s c = elim (Result-cases (begin c)) [
    | inr (e, busy) ↦ rw (start, busy) tt
    | inl (c', begun) ↦
        rw (start, begun) (prepare-Reached kind progress_raises raises memory files s c')
  ]

  -- Whatever calls come between the steps of a scan, it has scanned a first part of the files, each
  -- once and in order, with the counts and threats that a plain loop over this part gives; a
  -- summary tells of just that, and a completed scan has scanned all.
  pub scan-Reached :
      (kind : ScanType) (progress_raises : Bool) (raises : ThreatDetection → Bool)
      (memory : Option (List MemoryThreat)) (files : List Text) (s : S) (c : Control) {r : Run S}
      (ms : List Move)
      → start kind progress_raises raises memory files s c ≡ ok r
      → Reached files (r.progress, s) (run look size ms r)
  scan-Reached kind progress_raises raises memory files s c {r} ms e =
      run-Reached ms files (r.progress, s) r
        (IfOk-ok _ (start-Reached kind progress_raises raises memory files s c) e)

  rounds_complete :
      (files : List Text) (kind : ScanType) (p : Progress) (s : S)
      → (run look size (rounds files) (record {
        scan_type = kind;
        control = record { status = scanning; is_cancelled = false; is_unpaused = true };
        phase = fetching;
        remaining = files;
        progress = p;
        scanner = s;
      })).phase
        ≡ over (summary_of kind completed (scan_all look size files (p, s)).0)
  unfolding run step proceed finish scan_all
  rounds_complete [] kind p s = refl
  rounds_complete (x ∷ files) kind p s =
      rounds_complete files kind (scan_one look size x (p, s)).0 (scan_one look size x (p, s)).1

  prepare-rounds :
      (kind : ScanType) (raises : ThreatDetection → Bool) (memory : Option (List MemoryThreat))
      (files : List Text) (s : S)
      → let c : Control = record { status = scanning; is_cancelled = false; is_unpaused = true } in
        let r = prepare kind false raises memory (new_run kind files s c) in
        (run look size (rounds files) r).phase
        ≡ over (summary_of kind completed (scan_all look size files (r.progress, s)).0)
  unfolding prepare
  prepare-rounds full raises memory files s = rounds_complete files full no_progress s
  prepare-rounds custom raises memory files s = rounds_complete files custom no_progress s
  prepare-rounds quick raises none files s = rounds_complete files quick no_progress s
  prepare-rounds quick raises (some ts) files s =
      rounds_complete files quick (note_memory raises ts no_progress) s

  -- A scan starts unless one is running, and if nobody pauses or cancels it and the progress
  -- callback does not raise, it is completed after two steps for each file and one more, with a
  -- summary of all files.
  pub scan_completes :
      (kind : ScanType) (raises : ThreatDetection → Bool) (memory : Option (List MemoryThreat))
      (files : List Text) (s : S) (c : Control)
      → is_scanning c.status ≡ false
      → (r : Run S) × (start kind false raises memory files s c ≡ ok r)
        × ((run look size (rounds files) r).phase
            ≡ over (summary_of kind completed (scan_all look size files (r.progress, s)).0))
  unfolding start begin
  scan_completes kind raises memory files s c free =
      let c' : Control = record { status = scanning; is_cancelled = false; is_unpaused = true } in
      (
        prepare kind false raises memory (new_run kind files s c'),
        rw (start, begin, free) refl,
        prepare-rounds kind raises memory files s,
      )
