-- ===== src/Heuristics/Ransomware/Laws.antt =====
-- What one file-system event can trigger.
use sentinel_antivirus.Prelude.{
  ℕ, ◌≤◌, ◌<◌, ◌≡◌, ◌∙◌, inl, inr, true, false, ◌&&◌, Option, none, List, [], ◌∷◌, arith, leb,
  nat_eq, pair_eq, Text, codes, text_beq, text_beq_iff, text_eq, starts_with,
}
use sentinel_antivirus.Dict.{lookup}
use sentinel_antivirus.Result.{ok, Result-cases}
use sentinel_antivirus.Builtins.{Python, to_float, field}
use sentinel_antivirus.Schema.{Event, Value, null}
use sentinel_antivirus.Scoring.Signals.{
  Signal, new_signal, total_weight, effective_weight, default_weight, SubjectScore,
}
use sentinel_antivirus.Scoring.Scorer.{Scorer, get, add_signal, should_respond, corroborates}
use sentinel_antivirus.Scoring.Scorer.Respond.{lone_signal}
use sentinel_antivirus.Scoring.Scorer.Totals.{IsValid, add_signal-IsValid}
use sentinel_antivirus.Scoring.Weights.{total_weight-append}
use sentinel_antivirus.Heuristics.Ransomware.{
  Ransomware, Traps, scope_of, path_of, is_tripped, entropy_alarm, entropy_step, rate_step,
  note_write, process_fs_event,
}

program : Unit {0}
unfolding effective_weight default_weight lookup text_beq starts_with
program = tt

entropy_alarm-weight :
    (now : ℕ) (scope path : Text) (x : ℕ) (s : Ransomware)
    → total_weight (entropy_alarm now scope path x s).1 ≤ 30
unfolding entropy_alarm program
entropy_alarm-weight now scope path x s = ground arith

entropy_step-weight :
    (py : Python) (now : ℕ) (scope path : Text) (v : Value) (s : Ransomware) {s' : Ransomware}
    {gs : List Signal}
    → entropy_step py now scope path v s ≡ ok (s', gs)
    → total_weight gs ≤ 30
unfolding entropy_step
entropy_step-weight py now scope path null s h = ground arith
entropy_step-weight py now scope path v s h = elim (Result-cases (to_float py v)) [
  | inl (x, e) ↦ ground (arith, entropy_alarm-weight now scope path x s)
  | inr (x, e) ↦ absurd (ground arith)
]

rate_step-weight :
    (now : ℕ) (scope : Text) (s : Ransomware) → total_weight (rate_step now scope s).1 ≤ 30
unfolding rate_step program
rate_step-weight now scope s = ground arith

-- Without a tripped canary one event weighs at most 60: the rate and the entropy of one scope do
-- not reach the default threshold of 80 without another engine.
pub process_fs_event-weight :
    (py : Python) (traps : Option Traps) (now : ℕ) (e : Event) (s : Ransomware) {gs : List Signal}
    → is_tripped traps (path_of e) ≡ false
    → (process_fs_event py traps now e s).1 ≡ ok gs
    → total_weight gs ≤ 60
unfolding process_fs_event
process_fs_event-weight py traps now e s {gs} calm h =
    let scope = scope_of py e in
    let noted = note_write now scope s in
    elim (Result-cases
      (entropy_step py now scope (path_of e) (field (codes "entropy") e.extra) noted)) [
        | inr (x, failed) ↦ ground arith
        | inl ((s', found), e') ↦ ground (
          arith,
          entropy_step-weight py now scope (path_of e) (field (codes "entropy") e.extra) noted e',
          rate_step-weight now scope s',
          total_weight-append found (rate_step now scope s').1,
        )
      ]

-- The signal of a tripped canary
abbrev pub canary_signal : ℕ → Text → Signal
canary_signal now scope = new_signal now (codes "canary_tripped") scope (codes "ransomware_canary")

canary_alone :
    (now : ℕ) (scope : Text) (threshold : ℕ)
    → threshold ≤ 85
    → (leb threshold (effective_weight (canary_signal now scope))
        && corroborates (canary_signal now scope))
      ≡ true
unfolding program
canary_alone now scope threshold h = ground arith

-- A write to a tripped canary gives one signal and changes nothing else in the detector, and for a
-- scope without a score this signal asks for a response by itself at every threshold up to 85.
pub tripped_canary_responds :
    (py : Python) (traps : Option Traps) (now : ℕ) (e : Event) (s : Ransomware) (sc : Scorer)
    → e.event_type ≡ codes "file_write"
    → e.source ≡ codes "fs"
    → is_tripped traps (path_of e) ≡ true
    → 0 < sc.max_subjects
    → IsValid sc
    → get (scope_of py e) sc ≡ none
    → sc.threshold ≤ 85
    → (process_fs_event py traps now e s ≡ (s, ok (canary_signal now (scope_of py e) ∷ [])))
      × (sc' : Scorer) × (c : SubjectScore) × (add_signal now (canary_signal now (scope_of py e)) sc
          ≡ ok (sc', c))
      × (should_respond (scope_of py e) sc' ≡ true)
unfolding process_fs_event
tripped_canary_responds py traps now e s sc ty so tripped pos v new th =
    let g = canary_signal now (scope_of py e) in
    let (sc', c, added, valid, stored, total, room) = add_signal-IsValid now g sc pos v in
    (
      ground (
        arith,
        text_beq_iff e.event_type (codes "file_write"),
        text_beq_iff e.source (codes "fs"),
      ),
      sc',
      c,
      added,
      lone_signal now g sc new added ∙ canary_alone now (scope_of py e) sc.threshold th,
    )
