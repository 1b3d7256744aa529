-- ===== src/Scoring/Scorer/Respond.antt =====
-- When the scorer asks for a response.
use sentinel_antivirus.Prelude.{
  ℕ, ◌≡◌, refl, inl, inr, Bool, true, false, ◌&&◌, ◌||◌, not, none, some, List, [], ◌∷◌, arith, leb,
  nat_eq, pair_eq, Option-cases, keep, any_of, is_empty, All, Text, text_beq_iff, text_eq,
}
use sentinel_antivirus.Dict.{lookup, lookup-insert, lookup-erase}
use sentinel_antivirus.Result.{ok}
use sentinel_antivirus.Scoring.Signals.{Signal, SubjectScore, effective_weight, is_dll, add_to}
use sentinel_antivirus.Result.{Result-cases}
use sentinel_antivirus.Scoring.Scorer.{
  Scorer, Subjects, oldest_key, make_room, score_of, add_signal, get, crosses_threshold,
  is_reflective, corroborates, responds, should_respond,
}

any_of-keep {ℓ} :
    {A : Type ℓ} (p : A → Bool) (xs : List A) → not (is_empty (keep p xs)) ≡ any_of p xs
any_of-keep p [] = refl
any_of-keep p (x ∷ xs) = ground (arith, any_of-keep p xs)

any_of-or {ℓ} :
    {A : Type ℓ} (p q : A → Bool) (xs : List A)
    → (any_of p xs || any_of q xs) ≡ any_of (λ x. p x || q x) xs
any_of-or p q [] = refl
any_of-or p q (x ∷ xs) = ground (arith, any_of-or p q xs)

-- Some signal of the subject counts by itself.
abbrev pub is_corroborated : Text → Scorer → Bool
is_corroborated subject s = elim (get subject s) [
  | none ↦ false
  | some c ↦ any_of corroborates c.signals
]

pub responds_lem :
    (t : ℕ) (c : SubjectScore) → responds t c ≡ (leb t c.total && any_of corroborates c.signals)
unfolding responds
responds_lem t c =
    let ss = c.signals in
    ground (
      arith,
      any_of-keep (λ g. not (is_dll g)) ss,
      any_of-keep is_reflective ss,
      any_of-or (λ g. not (is_dll g)) is_reflective ss,
    )

-- A response is asked for exactly when the total reaches the threshold and some signal is no DLL
-- signal or is a reflective mapping.
pub should_respond_iff :
    (k : Text) (s : Scorer) → should_respond k s ≡ (crosses_threshold k s && is_corroborated k s)
unfolding should_respond crosses_threshold
should_respond_iff k s = elim (Option-cases (get k s)) [
  | inl e ↦ rw (e, should_respond, crosses_threshold)
  | inr (c, e) ↦ ground (arith, responds_lem s.threshold c)
]

no_corroboration :
    (ss : List Signal) → All (λ g. corroborates g ≡ false) ss → any_of corroborates ss ≡ false
no_corroboration [] h = refl
no_corroboration (g ∷ ss) h = ground (arith, no_corroboration ss h.1)

-- Weak DLL signals alone never ask for a response, however many there are and whatever their total.
pub weak_dll_never_responds :
    (k : Text) (s : Scorer) {c : SubjectScore}
    → get k s ≡ some c
    → All (λ g. (is_dll g ≡ true) × (is_reflective g ≡ false)) c.signals
    → should_respond k s ≡ false
weak_dll_never_responds k s {c} e h =
    rw (should_respond_iff k s) (ground (arith, no_corroboration c.signals (weak c.signals h)))
  where
    weak :
        (ss : List Signal)
        → All (λ g. (is_dll g ≡ true) × (is_reflective g ≡ false)) ss
        → All (λ g. corroborates g ≡ false) ss
    weak [] h = tt
    weak (g ∷ ss) h = (ground arith, weak ss h.1)

-- The eviction adds no subject.
make_room-lookup :
    (k : Text) (s : Scorer) {d : Subjects}
    → get k s ≡ none
    → make_room k s ≡ ok d
    → lookup k d ≡ none
unfolding make_room
make_room-lookup k s new e = elim (Result-cases (oldest_key s.subjects)) [
  | inl (j, found) ↦ ground (arith, lookup-erase j k s.subjects)
  | inr (x, failed) ↦ ground arith
]

-- The first signal about a subject asks for a response by itself exactly when its weight alone
-- reaches the threshold and it is not a weak DLL signal.
pub lone_signal :
    (now : ℕ) (g : Signal) (s : Scorer) {s' : Scorer} {c : SubjectScore}
    → get g.subject s ≡ none
    → add_signal now g s ≡ ok (s', c)
    → should_respond g.subject s' ≡ (leb s.threshold (effective_weight g) && corroborates g)
unfolding add_signal score_of add_to
lone_signal now g s {s'} {c} new e = elim (Result-cases (make_room g.subject s)) [
  | inr (x, failed) ↦ absurd (ground arith)
  | inl (d, made) ↦
      let absent : lookup g.subject d ≡ none = make_room-lookup g.subject s new made in
      let stored : get g.subject s' ≡ some c =
        ground (arith, lookup-insert g.subject g.subject c d, text_beq_iff g.subject g.subject) in
      unfold should_respond in
      rw (stored, should_respond) (rw (responds_lem s'.threshold c) (ground arith))
]
