-- ===== src/Consumer/Answered.antt =====
-- A subject that the consumer has noted as responded to was responded to.
use sentinel_antivirus.Prelude.{
  ◌∙◌, ℕ, ◌≡◌, refl, inl, inr, true, ◌||◌, none, List, [], ◌∷◌, ◌++◌, arith, nat_eq, pair_eq,
  Option-cases, Text, text_eq,
}
use sentinel_antivirus.Result.{Result-cases}
use sentinel_antivirus.Dict.{member, member-add, member-discard_if}
use sentinel_antivirus.Builtins.{Python}
use sentinel_antivirus.Schema.{Event}
use sentinel_antivirus.Scoring.Signals.{Signal, format_pid_subject}
use sentinel_antivirus.Scoring.Scorer.{add_signal, resets}
use sentinel_antivirus.Rules.Engine.{match_rules}
use sentinel_antivirus.Consumer.{
  should_respond, consume_item, run_consumer, Consumer, Outside, forget, react, feed, detect,
  process_event, engine_signals, note_start,
}
use sentinel_antivirus.Consumer.Covered.{
  process_event-IsCovered, react-auto, IsCovered, first_reaction, feed-fails, feed-stops, feed-goes,
  process_event-cases,
}

member-append : (k : Text) (xs ys : List Text) → member k (xs ++ ys) ≡ (member k xs || member k ys)
unfolding member
member-append k [] ys = refl
member-append k (x ∷ xs) ys = ground (arith, member-append k xs ys)

-- The subjects that are noted afterwards were noted before, or are among the responses.
abbrev pub IsAccounted : Consumer → Consumer → List Text → Type 0
IsAccounted c c' responses =
    (k : Text) → member k c'.responded ≡ true → (member k c.responded || member k responses) ≡ true

IsAccounted-append :
    (c d e : Consumer) (xs ys : List Text)
    → IsAccounted c d xs
    → IsAccounted d e ys
    → IsAccounted c e (xs ++ ys)
IsAccounted-append c d e xs ys h g k m = ground (arith, h k, g k m, member-append k xs ys)

IsAccounted-same : (c : Consumer) → IsAccounted c c []
unfolding member
IsAccounted-same c k m = ground arith

module _ (out : Outside) where
  react-IsAccounted :
      (subject : Text) (c : Consumer)
      → IsAccounted c (react out subject c).consumer (react out subject c).responses
  unfolding react member
  react-IsAccounted subject c k m = ground (arith, member-add subject k c.responded)

  feed-IsAccounted :
      (now : ℕ) (gs : List Signal) (c : Consumer)
      → IsAccounted c (feed out now gs c).consumer (feed out now gs c).responses
  unfolding feed
  feed-IsAccounted now [] c = IsAccounted-same c
  feed-IsAccounted now (g ∷ gs) c = elim (Result-cases (add_signal now g c.scorer)) [
    | inr (x, e) ↦ rw (feed-fails out now g gs c e) (IsAccounted-same c)
    | inl ((s, total), e) ↦
        let head = react-IsAccounted g.subject (record c { scorer = s }) in
        elim (Option-cases (first_reaction out g c s).raised) [
          | inr (x, n) ↦ rw (feed-stops out now g gs c e n) head
          | inl n ↦ rw (feed-goes out now g gs c e n) (
              let later = feed out now gs (first_reaction out g c s).consumer in
              IsAccounted-append c (first_reaction out g c s).consumer later.consumer
                (first_reaction out g c s).responses later.responses head
                (feed-IsAccounted now gs (first_reaction out g c s).consumer))
        ]
  ]

  feed-auto :
      (now : ℕ) (gs : List Signal) (c : Consumer)
      → (feed out now gs c).consumer.auto_respond ≡ c.auto_respond
  unfolding feed
  feed-auto now [] c = refl
  feed-auto now (g ∷ gs) c = elim (Result-cases (add_signal now g c.scorer)) [
    | inr (x, e) ↦ rw (feed-fails out now g gs c e) refl
    | inl ((s, total), e) ↦
        let same = react-auto out g.subject (record c { scorer = s }) in
        elim (Option-cases (first_reaction out g c s).raised) [
          | inr (x, n) ↦ rw (feed-stops out now g gs c e n) same
          | inl n ↦
              rw (feed-goes out now g gs c e n)
                (feed-auto now gs (first_reaction out g c s).consumer ∙ same)
        ]
  ]

forget-IsAccounted : (pid : ℕ) (c : Consumer) → IsAccounted c (forget pid c) []
unfolding forget
forget-IsAccounted pid c k m =
    ground (arith, member-discard_if (resets (format_pid_subject pid none)) k c.responded)

module _ (py : Python) (out : Outside) where
  process_event-IsAccounted :
      (now : ℕ) (e : Event) (c : Consumer)
      → IsAccounted c
          (process_event py out now e c).consumer
          (process_event py out now e c).responses
  unfolding detect
  process_event-IsAccounted now e c = elim (process_event-cases py out now e c) [
    | inl (pid, ended) ↦ rw ended (forget-IsAccounted pid c)
    | inr goes_on ↦
        let found = engine_signals py out now e c.engines in
        rw goes_on (
          feed-IsAccounted out now (match_rules py now e c.engines.rules ++ found.1)
            (record c { engines = found.0; start_times = note_start py e c.start_times }))
  ]

  process_event-auto :
      (now : ℕ) (e : Event) (c : Consumer)
      → (process_event py out now e c).consumer.auto_respond ≡ c.auto_respond
  unfolding detect forget
  process_event-auto now e c = elim (process_event-cases py out now e c) [
    | inl (pid, ended) ↦ rw ended refl
    | inr goes_on ↦ rw goes_on (feed-auto out now _ _)
  ]

  -- What every step of the consumer keeps
  abbrev Keeps : Consumer → Consumer → List Text → Type 0
  Keeps c c' responses = (c'.auto_respond ≡ true) × IsCovered c' × IsAccounted c c' responses

  process_event-Keeps :
      (now : ℕ) (e : Event) (c : Consumer)
      → c.auto_respond ≡ true
      → IsCovered c
      → Keeps c (process_event py out now e c).consumer (process_event py out now e c).responses
  process_event-Keeps now e c auto h = (
    process_event-auto now e c ∙ auto,
    process_event-IsCovered py out now e c auto h,
    process_event-IsAccounted now e c,
  )

  consume_item-Keeps :
      (es : List (ℕ × Event)) (c : Consumer)
      → c.auto_respond ≡ true
      → IsCovered c
      → Keeps c (consume_item py out es c).consumer (consume_item py out es c).responses
  unfolding consume_item
  consume_item-Keeps [] c auto h = (auto, h, IsAccounted-same c)
  consume_item-Keeps ((now, e) ∷ es) c auto h =
      let r = process_event py out now e c in
      let (on, covered, accounted) = process_event-Keeps now e c auto h in
      elim (Option-cases r.raised) [
        | inr (x, raised) ↦ rw (consume_item, raised) (on, covered, accounted)
        | inl fine ↦
            let rest = consume_item py out es r.consumer in
            let (on', covered', accounted') = consume_item-Keeps es r.consumer on covered in
            rw (consume_item, fine)
              (
                on',
                covered',
                IsAccounted-append c r.consumer rest.consumer r.responses rest.responses accounted
                    accounted',
              )
      ]

  run_consumer-Keeps :
      (items : List (List (ℕ × Event))) (c : Consumer)
      → c.auto_respond ≡ true
      → IsCovered c
      → Keeps c (run_consumer py out items c).0 (run_consumer py out items c).1
  unfolding run_consumer
  run_consumer-Keeps [] c auto h = (auto, h, IsAccounted-same c)
  run_consumer-Keeps (item ∷ items) c auto h =
      let r = consume_item py out item c in
      let (on, covered, accounted) = consume_item-Keeps item c auto h in
      let (on', covered', accounted') = run_consumer-Keeps items r.consumer on covered in
      (
        on',
        covered',
        IsAccounted-append c r.consumer (run_consumer py out items r.consumer).0 r.responses
            (run_consumer py out items r.consumer).1 accounted accounted',
      )

  -- With automatic responses on, and from a consumer that has noted every subject that asks for a
  -- response: after any items, events that raise included and with no periodic check among them, a
  -- response was started for every subject that the scorer asks one for, unless it was noted before
  -- them, and the subject is noted. A response that is started may itself raise.
  pub run_consumer-responds :
      (items : List (List (ℕ × Event))) (c : Consumer) (k : Text)
      → c.auto_respond ≡ true
      → IsCovered c
      → should_respond k (run_consumer py out items c).0.scorer ≡ true
      → (member k (run_consumer py out items c).0.responded ≡ true)
        × ((member k c.responded || member k (run_consumer py out items c).1) ≡ true)
  run_consumer-responds items c k auto h asks =
      let (on, covered, accounted) = run_consumer-Keeps items c auto h in
      (covered k asks, accounted k (covered k asks))
