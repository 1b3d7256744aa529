-- ===== src/Scoring/Scorer/Decay.antt =====
-- What `decay` and `evict_stale` leave.
use sentinel_antivirus.Prelude.{
  ℕ, ◌<◌, ◌≡◌, refl, ap, ◌∙◌, inl, inr, Bool, true, Option, none, some, List, [], ◌∷◌, arith, ◌==◌,
  nat_eq, pair_eq, Bool-cases, length, keep, is_empty, length-keep-le, Text, text_eq,
}
use sentinel_antivirus.Dict.{map_values}
use sentinel_antivirus.Dict.Entries.{
  AllEntries-remove_if, AllEntries-map_values, AllEntries-lookup, length-remove_if-le,
  length-map_values, lookup-map_values,
}
use sentinel_antivirus.Dict.Unique.{IsDict-remove_if, IsDict-map_values, lookup-remove_if, unless}
use sentinel_antivirus.Scoring.Signals.{Signal, SubjectScore, total_weight}
use sentinel_antivirus.Scoring.Scorer.{
  Scorer, get, is_fresh, decay_score, is_dead, decay, is_stale, evict_stale,
}
use sentinel_antivirus.Scoring.Scorer.Totals.{IsConsistent, IsValid}

keep_all {ℓ} :
    {A : Type ℓ} (p : A → Bool) (xs : List A) → length (keep p xs) ≡ length xs → keep p xs ≡ xs
keep_all p [] h = refl
keep_all p (x ∷ xs) h = ground (arith, keep_all p xs, length-keep-le p xs)

-- The shortcut for a subject that lost nothing changes nothing.
decay_score-signals :
    (now ttl : ℕ) (c : SubjectScore)
    → (decay_score now ttl c).signals ≡ keep (is_fresh now ttl) c.signals
unfolding decay_score
decay_score-signals now ttl c = ground (arith, keep_all (is_fresh now ttl) c.signals)

decay_score-IsConsistent :
    (now ttl : ℕ) (c : SubjectScore) → IsConsistent c → IsConsistent (decay_score now ttl c)
unfolding decay_score
decay_score-IsConsistent now ttl c h =
    elim (Bool-cases (length (keep (is_fresh now ttl) c.signals) == length c.signals)) [
      | inl all ↦ rw all h
      | inr some_gone ↦ rw some_gone (record { summed = refl; kinds = λ k. refl })
    ]

-- `decay` and `evict_stale` keep the invariant of the scorer.
pub decay-IsValid :
    (ttl : Option ℕ) (now : ℕ) (s : Scorer) → IsValid s → IsValid (decay ttl now s).0
unfolding decay
decay-IsValid ttl now s v = record {
  bounded = omega (
    arith,
    v.bounded,
    length-remove_if-le (λ _ c. is_dead c) (map_values (decay_score now t) s.subjects),
    length-map_values (decay_score now t) s.subjects,
  );
  unique = IsDict-remove_if _ _ (IsDict-map_values (decay_score now t) s.subjects v.unique);
  consistent =
      AllEntries-remove_if (λ k c. IsConsistent c) _ _
        (AllEntries-map_values (λ k c. IsConsistent c) (decay_score now t)
          (λ k c. decay_score-IsConsistent now t c) s.subjects v.consistent);
}
  where
    t : ℕ
    t = elim ttl [ none ↦ s.signal_ttl | some n ↦ n ]

pub evict_stale-IsValid :
    (max_age now : ℕ) (s : Scorer) → IsValid s → IsValid (evict_stale max_age now s).0
unfolding evict_stale
evict_stale-IsValid max_age now s v = record {
  bounded =
      omega (arith, v.bounded, length-remove_if-le (λ _ c. is_stale max_age now c) s.subjects);
  unique = IsDict-remove_if _ s.subjects v.unique;
  consistent = AllEntries-remove_if (λ k c. IsConsistent c) _ s.subjects v.consistent;
}

-- What is left of a subject: its fresh signals and their weight, or nothing if they weigh nothing.
abbrev pub Decayed : ℕ → ℕ → SubjectScore → Option SubjectScore → Type 0
Decayed now ttl c none = total_weight (keep (is_fresh now ttl) c.signals) ≡ 0
Decayed now ttl c (some c') =
    (c'.signals ≡ keep (is_fresh now ttl) c.signals)
    × (c'.total ≡ total_weight (keep (is_fresh now ttl) c.signals))
    × (0 < c'.total)

total_weight-empty : (ss : List Signal) → is_empty ss ≡ true → total_weight ss ≡ 0
total_weight-empty [] h = refl
total_weight-empty (g ∷ ss) h = cc

dead_or_alive :
    (now ttl : ℕ) (k : Text) (c : SubjectScore)
    → IsConsistent c
    → Decayed now ttl c (unless (λ _ c. is_dead c) k (some (decay_score now ttl c)))
dead_or_alive now ttl k c h =
    let d = decay_score now ttl c in
    let e : d.signals ≡ keep (is_fresh now ttl) c.signals = decay_score-signals now ttl c in
    let t : d.total ≡ total_weight (keep (is_fresh now ttl) c.signals) =
      (decay_score-IsConsistent now ttl c h).summed ∙ ap total_weight e in
    elim (Bool-cases (is_dead d)) [
      | inl dead ↦ rw dead (ground (arith, total_weight-empty d.signals, ap total_weight e))
      | inr alive ↦ rw alive (e, t, ground arith)
    ]

-- With the invariant, `decay` drops every signal older than the time to live and no other. A
-- subject is left with the weight of its fresh signals, and is gone exactly when they weigh
-- nothing.
pub decay_lem :
    (ttl now : ℕ) (k : Text) (s : Scorer) {c : SubjectScore}
    → IsValid s
    → get k s ≡ some c
    → Decayed now ttl c (get k (decay (some ttl) now s).0)
unfolding decay
decay_lem ttl now k s {c} v e =
    rw
      (
        lookup-remove_if (λ _ c. is_dead c) k (map_values (decay_score now ttl) s.subjects)
            (IsDict-map_values (decay_score now ttl) s.subjects v.unique),
        lookup-map_values (decay_score now ttl) k s.subjects,
        e,
      )
      (dead_or_alive now ttl k c
        (AllEntries-lookup (λ k c. IsConsistent c) k s.subjects v.consistent e))
