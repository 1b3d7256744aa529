-- ===== src/Examples/Scoring.antt =====
-- The scorer on a few signals.
use sentinel_antivirus.Prelude.{
  ◌+◌, ◌≡◌, refl, true, ◌&&◌, some, [], ◌∷◌, arith, nat_eq, pair_eq, codes, text_beq, text_eq,
  starts_with,
}
use sentinel_antivirus.Dict.{lookup}
use sentinel_antivirus.Result.{ok}
use sentinel_antivirus.Scoring.Signals.{
  Signal, SubjectScore, new_signal, empty_score, add_to, effective_weight, default_weight,
}
use sentinel_antivirus.Scoring.Scorer.{
  Scorer, get, add_signal, score_of, should_respond, crosses_threshold, decay,
}
use sentinel_antivirus.Scoring.Scorer.Totals.{
  IsValid, add_to-IsConsistent, empty_score-IsConsistent, add_signal-IsValid,
}
use sentinel_antivirus.Scoring.Scorer.Respond.{is_corroborated, should_respond_iff}
use sentinel_antivirus.Scoring.Scorer.Decay.{Decayed, decay_lem}

abbrev canary : Signal
canary = new_signal 1000 (codes "canary_tripped") (codes "pid:5") (codes "ransomware_canary")

abbrev injection : Signal
injection = new_signal 1000 (codes "dll_cross_process") (codes "pid:7") (codes "dll_handling")

abbrev no_scores : Scorer
no_scores = record { threshold = 80; signal_ttl = 600000; max_subjects = 2; subjects = [] }

abbrev canary_score : SubjectScore
canary_score = add_to (empty_score 0 (codes "pid:5")) canary

abbrev injection_score : SubjectScore
injection_score = add_to (empty_score 0 (codes "pid:7")) injection

abbrev scored : Scorer
scored = record no_scores {
  subjects = (codes "pid:5", canary_score) ∷ (codes "pid:7", injection_score) ∷ [];
}

scored-IsValid : IsValid scored
unfolding lookup text_beq
scored-IsValid = record {
  bounded = omega arith;
  unique = (refl, (refl, tt));
  consistent = (
    add_to-IsConsistent (empty_score 0 (codes "pid:5")) canary
        (empty_score-IsConsistent 0 (codes "pid:5")),
    (
      add_to-IsConsistent (empty_score 0 (codes "pid:7")) injection
          (empty_score-IsConsistent 0 (codes "pid:7")),
      tt,
    ),
  );
}

canary_responds : should_respond (codes "pid:5") scored ≡ true
unfolding should_respond lookup text_beq add_to effective_weight default_weight starts_with
canary_responds = refl

should_respond_iff_example :
    should_respond (codes "pid:5") scored
    ≡ (crosses_threshold (codes "pid:5") scored && is_corroborated (codes "pid:5") scored)
should_respond_iff_example = should_respond_iff (codes "pid:5") scored

-- There is no room for a third subject: the oldest one makes way.
add_signal-IsValid_example :
    (s' : Scorer) × (c : SubjectScore) × (add_signal 2000
        (record canary { subject = codes "pid:9" })
        scored
      ≡ ok (s', c))
    × IsValid s'
    × (get (codes "pid:9") s' ≡ some c)
    × (c.total
        ≡ (score_of 2000 (codes "pid:9") scored.subjects).total
          + effective_weight (record canary { subject = codes "pid:9" }))
    × (s'.max_subjects ≡ 2)
add_signal-IsValid_example =
    add_signal-IsValid 2000 (record canary { subject = codes "pid:9" }) scored (omega arith)
      scored-IsValid

decay_lem_example :
    Decayed 700000 600000 canary_score (get (codes "pid:5") (decay (some 600000) 700000 scored).0)
unfolding lookup text_beq
decay_lem_example =
    decay_lem 600000 700000 (codes "pid:5") scored {c = canary_score} scored-IsValid refl
