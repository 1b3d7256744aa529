-- ===== src/MemoryScanner/Response.antt =====
-- The signal of a threat in memory, at the scorer.
use sentinel_antivirus.Prelude.{
  ℕ, ◌-◌, ◌≤◌, ◌<◌, ◌≡◌, refl, ◌∙◌, true, false, ◌&&◌, none, arith, leb, nat_eq, pair_eq, text_beq,
  text_eq, starts_with,
}
use sentinel_antivirus.Dict.{lookup}
use sentinel_antivirus.Result.{ok}
use sentinel_antivirus.Scoring.Signals.{SubjectScore, effective_weight, default_weight, dll_prefix}
use sentinel_antivirus.Scoring.Scorer.{Scorer, get, add_signal, should_respond, corroborates}
use sentinel_antivirus.Scoring.Scorer.Respond.{lone_signal}
use sentinel_antivirus.Scoring.Scorer.Totals.{IsValid, add_signal-IsValid}
use sentinel_antivirus.MemoryScanner.Region.{
  MemoryThreat, ThreatType, unbacked_executable, shellcode_signature, reflective_pe,
  process_hollowing, kind_of, to_signal,
}
use sentinel_antivirus.MemoryScanner.Threats.{is_anomaly}

kind_weighs : (k : ThreatType) → is_anomaly k ≡ false → 80 ≤ default_weight (kind_of k)
unfolding default_weight kind_of lookup sentinel_antivirus.Prelude.text_beq
kind_weighs unbacked_executable h = absurd (ground arith)
kind_weighs shellcode_signature h = omega arith
kind_weighs reflective_pe h = omega arith
kind_weighs process_hollowing h = omega arith

kind_corroborates : (k : ThreatType) → starts_with (kind_of k) dll_prefix ≡ false
unfolding kind_of starts_with
kind_corroborates unbacked_executable = refl
kind_corroborates shellcode_signature = refl
kind_corroborates reflective_pe = refl
kind_corroborates process_hollowing = refl

code_alone :
    (now : ℕ) (t : MemoryThreat) (threshold : ℕ)
    → is_anomaly t.threat_type ≡ false
    → threshold ≤ 80
    → (leb threshold (effective_weight (to_signal now t)) && corroborates (to_signal now t)) ≡ true
unfolding to_signal effective_weight
code_alone now t threshold shows th =
    ground (arith, kind_weighs t.threat_type shows, kind_corroborates t.threat_type)

-- The signal of a threat that shows code, not only memory that can be written and run, asks for a
-- response by itself, for a process without a score and at every threshold up to 80.
pub to_signal-responds :
    (now : ℕ) (t : MemoryThreat) (sc : Scorer)
    → is_anomaly t.threat_type ≡ false
    → 0 < sc.max_subjects
    → IsValid sc
    → get (to_signal now t).subject sc ≡ none
    → sc.threshold ≤ 80
    → (sc' : Scorer) × (c : SubjectScore) × (add_signal now (to_signal now t) sc ≡ ok (sc', c))
      × (should_respond (to_signal now t).subject sc' ≡ true)
to_signal-responds now t sc shows pos v new th =
    let g = to_signal now t in
    let (sc', c, added, valid, stored, total, room) = add_signal-IsValid now g sc pos v in
    (sc', c, added, lone_signal now g sc new added ∙ code_alone now t sc.threshold shows th)
