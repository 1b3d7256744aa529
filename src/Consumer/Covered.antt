-- ===== src/Consumer/Covered.antt =====
-- The consumer notes every subject that the scorer asks a response for, and responds to it once.
use sentinel_antivirus.Prelude.{
  ℕ, ◌+◌, ◌≤◌, ◌≡◌, refl, ◌∙◌, ◌⊎◌, inl, inr, true, false, none, some, List, [], ◌∷◌, ◌++◌, arith,
  if◌then◌else◌, ◌==◌, nat_eq, pair_eq, Bool-cases, Option-cases, length, keep, Text, text_eq,
}
use sentinel_antivirus.Dict.{
  lookup, member, lookup-insert, lookup-erase, lookup-remove_key, member-add, member-discard_if,
}
use sentinel_antivirus.Result.{Error, ok, err, Result-cases}
use sentinel_antivirus.Scoring.Signals.{Signal, SubjectScore, add_to, format_pid_subject}
use sentinel_antivirus.Schema.{Event}
use sentinel_antivirus.Builtins.{Python}
use sentinel_antivirus.Scoring.Scorer.{
  Scorer, Subjects, add_signal, make_room, score_of, oldest_key, should_respond, resets, reset,
  reset_pid,
}
use sentinel_antivirus.Consumer.{
  Consumer, Outside, Fed, ended_pid, forget, react, feed, detect, process_event, engine_signals,
  note_start,
}
use sentinel_antivirus.Rules.Engine.{match_rules}

-- Every subject that the scorer asks a response for is noted as responded to.
abbrev pub IsCovered : Consumer → Type 0
IsCovered c = (k : Text) → should_respond k c.scorer ≡ true → member k c.responded ≡ true

make_room-lookup :
    (subject k : Text) (s : Scorer) {d : Subjects}
    → make_room subject s ≡ ok d
    → (lookup k d ≡ none) ⊎ (lookup k d ≡ lookup k s.subjects)
unfolding make_room
make_room-lookup subject k s h = elim (Result-cases (oldest_key s.subjects)) [
  | inl (j, found) ↦ ground (arith, lookup-erase j k s.subjects)
  | inr (x, failed) ↦ ground arith
]

-- A signal about another subject raises no one's score.
add_signal-other :
    (now : ℕ) (g : Signal) (k : Text) (s : Scorer) {s' : Scorer} {c : SubjectScore}
    → add_signal now g s ≡ ok (s', c)
    → (g.subject == k) ≡ false
    → should_respond k s' ≡ true
    → should_respond k s ≡ true
unfolding add_signal should_respond
add_signal-other now g k s h other r = elim (Result-cases (make_room g.subject s)) [
  | inr (x, m) ↦ absurd (ground arith)
  | inl (d, m) ↦ ground (
    arith,
    make_room-lookup g.subject k s m,
    lookup-insert g.subject k (add_to (score_of now g.subject d) g) d,
  )
]

-- The responses to a subject
abbrev pub responses_to : Text → List Text → ℕ
responses_to k ks = length (keep (λ j. j == k) ks)

responses_to-append :
    (k : Text) (xs ys : List Text)
    → responses_to k (xs ++ ys) ≡ responses_to k xs + responses_to k ys
responses_to-append k [] ys = omega arith
responses_to-append k (x ∷ xs) ys = ground (arith, responses_to-append k xs ys)

-- How often a subject may still be responded to
abbrev pub allowance : Text → Consumer → ℕ
allowance k c = if member k c.responded then 0 else 1

module _ (out : Outside) where
  pub react-auto :
      (k : Text) (c : Consumer) → (react out k c).consumer.auto_respond ≡ c.auto_respond
  unfolding react
  react-auto k c = ground arith

  react-IsCovered :
      (subject : Text) (c : Consumer)
      → c.auto_respond ≡ true
      → ((k : Text)
          → (subject == k) ≡ false
          → should_respond k c.scorer ≡ true
          → member k c.responded ≡ true)
      → IsCovered (react out subject c).consumer
  unfolding react
  react-IsCovered subject c auto h k r = elim (Bool-cases (subject == k)) [
    | inr other ↦ ground (arith, h k other, member-add subject k c.responded)
    | inl same ↦ ground (arith, text_eq.beq_iff subject k, member-add subject k c.responded)
  ]

  pub feed-fails :
      (now : ℕ) (g : Signal) (gs : List Signal) (c : Consumer) {x : Error}
      → add_signal now g c.scorer ≡ err x
      → feed out now (g ∷ gs) c ≡ record { consumer = c; responses = []; raised = some x }
  unfolding feed
  feed-fails now g gs c e = rw (feed, e) refl

  -- The reaction to the first signal
  abbrev pub first_reaction : Signal → Consumer → Scorer → Fed
  first_reaction g c s = react out g.subject (record c { scorer = s })

  pub feed-stops :
      (now : ℕ) (g : Signal) (gs : List Signal) (c : Consumer) {s : Scorer} {t : SubjectScore}
      {x : Error}
      → add_signal now g c.scorer ≡ ok (s, t)
      → (first_reaction g c s).raised ≡ some x
      → feed out now (g ∷ gs) c ≡ first_reaction g c s
  unfolding feed react
  feed-stops now g gs c e n = rw (feed, e, n) refl

  pub feed-goes :
      (now : ℕ) (g : Signal) (gs : List Signal) (c : Consumer) {s : Scorer} {t : SubjectScore}
      → add_signal now g c.scorer ≡ ok (s, t)
      → (first_reaction g c s).raised ≡ none
      → feed out now (g ∷ gs) c ≡ record (feed out now gs (first_reaction g c s).consumer) {
        responses =
            (first_reaction g c s).responses
            ++ (feed out now gs (first_reaction g c s).consumer).responses;
      }
  unfolding feed
  feed-goes now g gs c e n = rw (feed, e, n) refl

  pub feed-IsCovered :
      (now : ℕ) (gs : List Signal) (c : Consumer)
      → c.auto_respond ≡ true
      → IsCovered c
      → IsCovered (feed out now gs c).consumer
  unfolding feed
  feed-IsCovered now [] c auto h = h
  feed-IsCovered now (g ∷ gs) c auto h = elim (Result-cases (add_signal now g c.scorer)) [
    | inr (x, e) ↦ rw (feed-fails now g gs c e) h
    | inl ((s, total), e) ↦
        let covered : IsCovered (first_reaction g c s).consumer =
          react-IsCovered g.subject (record c { scorer = s }) auto
            (λ k other r. h k (add_signal-other now g k c.scorer e other r)) in
        elim (Option-cases (first_reaction g c s).raised) [
          | inr (x, n) ↦ rw (feed-stops now g gs c e n) covered
          | inl n ↦ rw (feed-goes now g gs c e n) (
              feed-IsCovered now gs (first_reaction g c s).consumer
                (react-auto g.subject (record c { scorer = s }) ∙ auto) covered)
        ]
  ]

  react-once :
      (k subject : Text) (c : Consumer)
      → responses_to k (react out subject c).responses + allowance k (react out subject c).consumer
        ≤ allowance k c
  unfolding react
  react-once k subject c =
      ground (arith, text_eq.beq_iff subject k, member-add subject k c.responded)

  feed-once :
      (k : Text) (now : ℕ) (gs : List Signal) (c : Consumer)
      → responses_to k (feed out now gs c).responses + allowance k (feed out now gs c).consumer
        ≤ allowance k c
  unfolding feed
  feed-once k now [] c = omega arith
  feed-once k now (g ∷ gs) c = elim (Result-cases (add_signal now g c.scorer)) [
    | inr (x, e) ↦ rw (feed-fails now g gs c e) (omega arith)
    | inl ((s, total), e) ↦
        let head = react-once k g.subject (record c { scorer = s }) in
        elim (Option-cases (first_reaction g c s).raised) [
          | inr (x, n) ↦ rw (feed-stops now g gs c e n) head
          | inl n ↦ rw (feed-goes now g gs c e n) (
              omega (
                arith,
                head,
                feed-once k now gs (first_reaction g c s).consumer,
                responses_to-append k (first_reaction g c s).responses
                    (feed out now gs (first_reaction g c s).consumer).responses,
              ))
        ]
  ]

-- The scores and the responses of a process that ends are forgotten together.
forget-IsCovered : (pid : ℕ) (c : Consumer) → IsCovered c → IsCovered (forget pid c)
unfolding forget reset_pid reset should_respond
forget-IsCovered pid c h k r = ground (
  arith,
  h k,
  lookup-remove_key (resets (format_pid_subject pid none)) k c.scorer.subjects,
  member-discard_if (resets (format_pid_subject pid none)) k c.responded,
)

module _ (py : Python) (out : Outside) where
  pub process_event-cases :
      (now : ℕ) (e : Event) (c : Consumer)
      → ((pid : ℕ) × (process_event py out now e c
            ≡ record { consumer = forget pid c; responses = []; raised = none }))
        ⊎ (process_event py out now e c ≡ detect py out now e c)
  unfolding process_event
  process_event-cases now e c = elim (Option-cases (ended_pid e)) [
    | inl n ↦ inr (rw (process_event, n) refl)
    | inr (pid, n) ↦ inl (pid, rw (process_event, n) refl)
  ]

  -- With automatic responses on, every subject that the scorer asks a response for is noted as
  -- responded to after an event if that was so before it, also where the event raises.
  pub process_event-IsCovered :
      (now : ℕ) (e : Event) (c : Consumer)
      → c.auto_respond ≡ true
      → IsCovered c
      → IsCovered (process_event py out now e c).consumer
  unfolding detect
  process_event-IsCovered now e c auto h = elim (process_event-cases now e c) [
    | inl (pid, ended) ↦ rw ended (forget-IsCovered pid c h)
    | inr goes_on ↦ rw goes_on (feed-IsCovered out now _ _ auto h)
  ]

  -- An event gives at most one response to each subject, and none to a subject that has been
  -- responded to and is not forgotten.
  pub process_event-once :
      (k : Text) (now : ℕ) (e : Event) (c : Consumer)
      → responses_to k (process_event py out now e c).responses ≤ allowance k c
  unfolding detect
  process_event-once k now e c = elim (process_event-cases now e c) [
    | inl (pid, ended) ↦ rw ended (omega arith)
    | inr goes_on ↦
        let found = engine_signals py out now e c.engines in
        rw goes_on (
          omega (
            arith,
            feed-once out k now (match_rules py now e c.engines.rules ++ found.1)
                (record c { engines = found.0; start_times = note_start py e c.start_times }),
          ))
  ]
