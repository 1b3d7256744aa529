-- ===== src/Scanner/Runs.antt =====
-- A scan that other threads pause, resume and cancel.
use sentinel_antivirus.Prelude.{
  ℕ, zero, suc, ◌≡◌, refl, sym, ap, ◌∙◌, inl, inr, Bool, true, false, Option, List, [], ◌∷◌, ◌++◌,
  arith, nat_eq, pair_eq, Bool-cases, any_of, Text, text_eq,
}
use mathlib.Core.Path.{subst}
use sentinel_antivirus.Scanner.Sample.{ThreatDetection}
use sentinel_antivirus.Scanner.Control.{scanning, cancelled, cancel, pause, resume, final_status}
use sentinel_antivirus.Scanner.Scan.{
  Phase, fetching, holding, over, Run, Move, call_cancel, call_pause, call_resume, advance,
  summary_of, finish, proceed, step, run,
}

abbrev pub is_over : Phase → Bool
is_over (over summary) = true
is_over _ = false

abbrev pub is_pause : Move → Bool
is_pause call_pause = true
is_pause _ = false

abbrev pub is_advance : Move → Bool
is_advance advance = true
is_advance _ = false

advance_only : (m : Move) → is_advance m ≡ true → m ≡ advance
advance_only advance h = refl
advance_only call_cancel h = absurd (cc)
advance_only call_pause h = absurd (cc)
advance_only call_resume h = absurd (cc)

no_pause-append :
    (ms : List Move) → any_of is_pause ms ≡ false → any_of is_pause (ms ++ advance ∷ []) ≡ false
no_pause-append [] h = refl
no_pause-append (m ∷ ms) h = ground (arith, no_pause-append ms)

-- Steps of a scan alone
abbrev pub advances : ℕ → List Move
advances zero = []
advances (suc n) = advance ∷ advances n

-- A run that has ended as cancelled, with the progress that it had
abbrev pub EndsCancelled : {S : Type 0} → Run S → Run S → Type 0
EndsCancelled {S} r r' =
    (r'.phase ≡ over (summary_of r.scan_type cancelled r.progress))
    × (r'.control.status ≡ cancelled)
    × (r'.remaining ≡ r.remaining)

module _ {S : Type 0} (look : Text → S → Option ThreatDetection × S) (size : Text → Option ℕ) where
  -- A cancelled run whose pause event is set ends with its next step.
  proceed-cancelled :
      (p : Phase) (r : Run S)
      → is_over p ≡ false
      → r.control.is_cancelled ≡ true
      → r.control.is_unpaused ≡ true
      → EndsCancelled r (proceed look size p r)
  unfolding proceed finish final_status
  proceed-cancelled fetching r open_ gone free = rw (proceed, gone) (refl, refl, refl)
  proceed-cancelled holding r open_ gone free = rw (proceed, free, gone) (refl, refl, refl)
  proceed-cancelled (over s) r open_ gone free = absurd (cc)

  -- A run that is cancelled and not held back, and has not moved on since
  abbrev IsLeaving : Run S → Run S → Type 0
  IsLeaving r r' =
      (is_over r'.phase ≡ false)
      × (r'.control.is_cancelled ≡ true)
      × (r'.control.is_unpaused ≡ true)
      × (r'.progress ≡ r.progress)
      × (r'.remaining ≡ r.remaining)
      × (r'.scan_type ≡ r.scan_type)

  leaving-advance : (r r' : Run S) → IsLeaving r r' → EndsCancelled r (step look size advance r')
  unfolding step
  leaving-advance r r' h =
      let e = proceed-cancelled r'.phase r' h.0 h.1 h.2 in
      (e.0 ∙ (λ i. over (summary_of (h.5 i) cancelled (h.3 i))), e.1, e.2 ∙ h.4)

  step-IsLeaving :
      (m : Move) (r r' : Run S)
      → is_pause m ≡ false
      → is_advance m ≡ false
      → IsLeaving r r'
      → IsLeaving r (step look size m r')
  unfolding step cancel resume
  step-IsLeaving call_cancel r r' np na h = (h.0, refl, refl, h.3, h.4, h.5)
  step-IsLeaving call_resume r r' np na h = ground arith
  step-IsLeaving call_pause r r' np na h = absurd (cc)
  step-IsLeaving advance r r' np na h = absurd (cc)

  ended-step :
      (m : Move) (r r' : Run S)
      → is_pause m ≡ false
      → EndsCancelled r r'
      → EndsCancelled r (step look size m r')
  unfolding step cancel resume proceed
  ended-step call_cancel r r' np h = h
  ended-step call_resume r r' np h = ground arith
  ended-step call_pause r r' np h = absurd (cc)
  ended-step advance r r' np h = rw (h.0, proceed) (refl, h.1, h.2)

  ended-run :
      (ms : List Move) (r r' : Run S)
      → any_of is_pause ms ≡ false
      → EndsCancelled r r'
      → EndsCancelled r (run look size ms r')
  unfolding run
  ended-run [] r r' np h = h
  ended-run (m ∷ ms) r r' np h =
      ended-run ms r (step look size m r') (ground arith) (ended-step m r r' (ground arith) h)

  leaving-run :
      (ms : List Move) (r r' : Run S)
      → any_of is_pause ms ≡ false
      → IsLeaving r r'
      → EndsCancelled r (run look size (ms ++ advance ∷ []) r')
  unfolding run
  leaving-run [] r r' np h = leaving-advance r r' h
  leaving-run (m ∷ ms) r r' np h = elim (Bool-cases (is_advance m)) [
    | inr call ↦
        leaving-run ms r (step look size m r') (ground arith)
          (step-IsLeaving m r r' (ground arith) call h)
    | inl adv ↦
        ended-run (ms ++ advance ∷ []) r (step look size m r') (no_pause-append ms (ground arith)) (
          subst (λ k. EndsCancelled r (step look size k r')) (sym (advance_only m adv))
            (leaving-advance r r' h))
  ]

  -- After `cancel` the scan ends with its next step at the latest, as cancelled and with no further
  -- file scanned, whatever calls come in between, as long as none of them is `pause`.
  pub cancel_ends :
      (ms : List Move) (r : Run S)
      → is_over r.phase ≡ false
      → any_of is_pause ms ≡ false
      → EndsCancelled r (run look size (call_cancel ∷ (ms ++ advance ∷ [])) r)
  unfolding run step cancel
  cancel_ends ms r open_ np =
      leaving-run ms r (step look size call_cancel r) np (open_, refl, refl, refl, refl, refl)

  proceed-held : (r : Run S) → r.control.is_unpaused ≡ false → proceed look size holding r ≡ r
  unfolding proceed
  proceed-held r shut = ground arith

  held-step :
      (r : Run S) → r.phase ≡ holding → r.control.is_unpaused ≡ false → step look size advance r ≡ r
  unfolding step
  held-step r here shut = ap (λ p. proceed look size p r) here ∙ proceed-held r shut

  held-run :
      (n : ℕ) (r : Run S)
      → r.phase ≡ holding
      → r.control.is_unpaused ≡ false
      → run look size (advances n) r ≡ r
  unfolding run
  held-run zero r here shut = refl
  held-run (suc n) r here shut =
      ap (run look size (advances n)) (held-step r here shut) ∙ held-run n r here shut

  -- A scan that holds a file and is paused after it was cancelled stays where it is, however many
  -- steps it is given: the pause takes back the event that `cancel` sets to wake it up.
  pub cancel-pause-waits :
      (n : ℕ) (r : Run S)
      → r.phase ≡ holding
      → r.control.status ≡ scanning
      → let held = run look size (call_cancel ∷ (call_pause ∷ [])) r in
        (run look size (advances n) held ≡ held)
        × (held.phase ≡ holding)
        × (held.control.is_cancelled ≡ true)
  unfolding run step cancel pause
  cancel-pause-waits n r here on =
      let held = run look size (call_cancel ∷ (call_pause ∷ [])) r in
      (held-run n held here (ground arith), here, ground arith)

  paused-proceed :
      (p : Phase) (r : Run S)
      → r.control.is_unpaused ≡ false
      → r.control.is_cancelled ≡ false
      → ((proceed look size p r).progress ≡ r.progress)
        × ((proceed look size p r).control.is_unpaused ≡ false)
        × ((proceed look size p r).control.is_cancelled ≡ false)
  unfolding proceed finish
  paused-proceed fetching r shut kept = ground arith
  paused-proceed holding r shut kept = ground arith
  paused-proceed (over summary) r shut kept = (refl, shut, kept)

  paused-run :
      (n : ℕ) (r : Run S)
      → r.control.is_unpaused ≡ false
      → r.control.is_cancelled ≡ false
      → (run look size (advances n) r).progress ≡ r.progress
  unfolding run step
  paused-run zero r shut kept = refl
  paused-run (suc n) r shut kept =
      let (same, shut', kept') = paused-proceed r.phase r shut kept in
      paused-run n (step look size advance r) shut' kept' ∙ same

  -- A scan that is paused scans nothing, however many steps it is given.
  pub pause-scans_nothing :
      (n : ℕ) (r : Run S)
      → r.control.status ≡ scanning
      → r.control.is_cancelled ≡ false
      → (run look size (call_pause ∷ advances n) r).progress ≡ r.progress
  unfolding run step pause
  pause-scans_nothing n r on kept =
      paused-run n (step look size call_pause r) (ground arith) (ground arith)
