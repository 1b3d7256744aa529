-- ===== src/Scoring/Scorer/Totals.antt =====
-- The invariant of the scorer, and `add_signal`.
use sentinel_antivirus.Prelude.{
  ℕ, ◌+◌, ◌≤◌, ◌<◌, min, ◌≡◌, refl, ◌⊎◌, inl, inr, true, ◌&&◌, ◌||◌, not, some, List, [], ◌∷◌, ◌++◌,
  arith, ltb, leb, if◌then◌else◌, ◌==◌, nat_eq, pair_eq, Bool-cases, Option-cases, length, Text,
  text_beq_iff, text_eq,
}
use sentinel_antivirus.Dict.{
  length-insert_old, lookup, has_key, insert, erase, lookup-insert, lookup-erase, member,
  member-add,
}
use sentinel_antivirus.Result.{ok}
use sentinel_antivirus.Dict.Entries.{
  AllEntries, AllEntries-remove_if, AllEntries-insert, AllEntries-lookup, length-erase-lt,
  length-insert-le,
}
use sentinel_antivirus.Dict.Unique.{IsDict, IsDict-remove_if, IsDict-insert}
use sentinel_antivirus.Scoring.Signals.{
  Signal, SubjectScore, effective_weight, is_dll, empty_score, add_to, total_weight, dll_kinds,
}
use sentinel_antivirus.Scoring.Scorer.{
  Scorer, Subjects, least_from, oldest_key, make_room, score_of, add_signal, get,
}

-- A score agrees with its signals: the total is their weight, the components are their DLL kinds.
pub record IsConsistent (c : SubjectScore) : Type 0 where
  pub summed : c.total ≡ total_weight c.signals
  pub kinds : (k : Text) → member k c.dll_components ≡ member k (dll_kinds c.signals)

pub record IsValid (s : Scorer) : Type 0 where
  pub bounded : length s.subjects ≤ s.max_subjects
  pub unique : IsDict s.subjects
  pub consistent : AllEntries (λ k c. IsConsistent c) s.subjects

total_weight-append :
    (xs : List Signal) (g : Signal)
    → total_weight (xs ++ g ∷ []) ≡ total_weight xs + effective_weight g
total_weight-append [] g = omega arith
total_weight-append (x ∷ xs) g = omega (arith, total_weight-append xs g)

dll_kinds-append :
    (xs : List Signal) (g : Signal) (k : Text)
    → member k (dll_kinds (xs ++ g ∷ [])) ≡ (member k (dll_kinds xs) || (is_dll g && g.kind == k))
unfolding dll_kinds member
dll_kinds-append [] g k = ground (arith, member-add g.kind k [])
dll_kinds-append (x ∷ xs) g k = ground (
  arith,
  dll_kinds-append xs g k,
  member-add x.kind k (dll_kinds xs),
  member-add x.kind k (dll_kinds (xs ++ g ∷ [])),
)

pub empty_score-IsConsistent : (now : ℕ) (subject : Text) → IsConsistent (empty_score now subject)
unfolding dll_kinds
empty_score-IsConsistent now subject = record { summed = refl; kinds = λ k. refl }

pub add_to-IsConsistent :
    (c : SubjectScore) (g : Signal) → IsConsistent c → IsConsistent (add_to c g)
unfolding add_to
add_to-IsConsistent c g h = record {
  summed = omega (arith, total_weight-append c.signals g, h.summed);
  kinds = λ k.
      ground
        (arith, dll_kinds-append c.signals g k, member-add g.kind k c.dll_components, h.kinds k);
}

score_of-IsConsistent :
    (now : ℕ) (subject : Text) (d : Subjects)
    → AllEntries (λ k c. IsConsistent c) d
    → IsConsistent (score_of now subject d)
unfolding score_of
score_of-IsConsistent now subject d h = elim (Option-cases (lookup subject d)) [
  | inl e ↦ rw (e, score_of) (empty_score-IsConsistent now subject)
  | inr (c, e) ↦ rw (e, score_of) (AllEntries-lookup (λ k c. IsConsistent c) subject d h e)
]

least_from-key :
    (k : Text) (t : ℕ) (d : Subjects)
    → (least_from k t d ≡ k) ⊎ (has_key (least_from k t d) d ≡ true)
unfolding least_from lookup
least_from-key k t [] = inl refl
least_from-key k t ((j, c) ∷ d) = ground (
  arith,
  text_beq_iff j k,
  text_beq_iff j j,
  text_beq_iff j (least_from (if ltb c.last_updated t then j else k) (min c.last_updated t) d),
  least_from-key (if ltb c.last_updated t then j else k) (min c.last_updated t) d,
)

-- The eviction finds a key of the dict.
pub oldest_key-total :
    (d : Subjects) → 0 < length d → (k : Text) × (oldest_key d ≡ ok k) × (has_key k d ≡ true)
unfolding oldest_key lookup
oldest_key-total [] h = elim h [ ]
oldest_key-total ((j, c) ∷ d) h = (
  least_from j c.last_updated d,
  refl,
  ground (arith, text_beq_iff j (least_from j c.last_updated d), least_from-key j c.last_updated d),
)

-- What `make_room` leaves: room for one more, unless the subject is there already.
make_room-fits :
    (subject : Text) (s : Scorer)
    → 0 < s.max_subjects
    → IsValid s
    → (d : Subjects) × (make_room subject s ≡ ok d)
      × IsDict d
      × AllEntries (λ k c. IsConsistent c) d
      × ((has_key subject d ≡ true) × (length d ≤ s.max_subjects) ⊎ (length d < s.max_subjects))
      × (lookup subject d ≡ lookup subject s.subjects)
unfolding make_room
make_room-fits subject s pos v =
    elim (Bool-cases (leb s.max_subjects (length s.subjects) && not (has_key subject s.subjects))) [
      | inl full ↦
          let (k, found, there) = oldest_key-total s.subjects (ground arith) in
          (
            erase k s.subjects,
            rw (full, found),
            IsDict-remove_if (λ j _. j == k) s.subjects v.unique,
            AllEntries-remove_if (λ j c. IsConsistent c) (λ j _. j == k) s.subjects v.consistent,
            inr (ground (arith, v.bounded, length-erase-lt k s.subjects there)),
            ground (arith, lookup-erase k subject s.subjects),
          )
      | inr free ↦ (s.subjects, rw free, v.unique, v.consistent, ground (arith, v.bounded), refl)
    ]

insert-fits :
    (k : Text) (c : SubjectScore) (d : Subjects) (m : ℕ)
    → (has_key k d ≡ true) × (length d ≤ m) ⊎ (length d < m)
    → length (insert k c d) ≤ m
insert-fits k c d m (inr room) = omega (arith, length-insert-le k c d)
insert-fits k c d m (inl (old, fits)) = elim (Option-cases (lookup k d)) [
  | inl e ↦ absurd (ground arith)
  | inr (u, e) ↦ omega (arith, length-insert_old k c u d e)
]

score_of-lookup :
    (now : ℕ) (k : Text) (d d' : Subjects)
    → lookup k d ≡ lookup k d'
    → score_of now k d ≡ score_of now k d'
unfolding score_of
score_of-lookup now k d d' e = rw (e, score_of)

-- With room for a subject at all, `add_signal` never raises. It keeps the invariant, returns the
-- score that is stored, and has raised the subject's total by the signal's weight.
pub add_signal-IsValid :
    (now : ℕ) (g : Signal) (s : Scorer)
    → 0 < s.max_subjects
    → IsValid s
    → (s' : Scorer) × (c : SubjectScore) × (add_signal now g s ≡ ok (s', c))
      × IsValid s'
      × (get g.subject s' ≡ some c)
      × (c.total ≡ (score_of now g.subject s.subjects).total + effective_weight g)
      × (s'.max_subjects ≡ s.max_subjects)
unfolding add_signal
add_signal-IsValid now g s pos v =
    let (d, made, unique, all, room, same) = make_room-fits g.subject s pos v in
    let c = add_to (score_of now g.subject d) g in
    (
      record s { subjects = insert g.subject c d },
      c,
      rw made,
      record {
        bounded = insert-fits g.subject c d s.max_subjects room;
        unique = IsDict-insert g.subject c d unique;
        consistent =
            AllEntries-insert (λ k c. IsConsistent c) g.subject c d
              (add_to-IsConsistent _ g (score_of-IsConsistent now g.subject d all)) all;
      },
      ground (arith, lookup-insert g.subject g.subject c d, text_beq_iff g.subject g.subject),
      unfold add_to in rw (score_of-lookup now g.subject d s.subjects same),
      refl,
    )
