-- ===== src/Scoring/Scorer/Reset.antt =====
-- `reset_pid` against the subject keys that `format_pid_subject` makes.
use sentinel_antivirus.Prelude.{
  ℕ, ◌<◌, ◌≡◌, refl, ap, ◌≢◌, inl, inr, true, false, ◌||◌, Option, none, some, [], ◌∷◌, ◌++◌, arith,
  nat_beq_iff, if◌then◌else◌, ◌==◌, nat_eq, pair_eq, Bool-cases, All, Text, text_beq, text_beq_iff,
  text_eq, starts_with, starts_with-append, starts_with-append_both, decimal,
}
use sentinel_antivirus.Dict.{lookup-remove_key}
use sentinel_antivirus.Prelude.Decimal.{
  IsDigit, decimal-IsDigit, decimal_injective, digits_before_mark,
}
use sentinel_antivirus.Scoring.Signals.{pid_prefix, format_pid_subject}
use sentinel_antivirus.Scoring.Scorer.{Scorer, get, resets, reset_pid}

append_cancel : (p s t : Text) → (p ++ s) ≡ (p ++ t) → s ≡ t
append_cancel [] s t h = h
append_cancel (a ∷ p) s t h = append_cancel p s t (cc)

no_mark_in_digits :
    (mark : ℕ) (s t : Text) → b'9' < mark → All IsDigit s → starts_with s (t ++ mark ∷ []) ≡ false
unfolding starts_with
no_mark_in_digits mark [] [] m h = refl
no_mark_in_digits mark [] (d ∷ t) m h = refl
no_mark_in_digits mark (c ∷ s) [] m h = ground arith
no_mark_in_digits mark (c ∷ s) (d ∷ t) m h = ground (arith, no_mark_in_digits mark s t m h.1)

-- The digits of one pid before a mark never begin with another pid and the mark.
same_pid :
    (p q : ℕ) (rest : Text)
    → starts_with (decimal p ++ b':' ∷ rest) (decimal q ++ b':' ∷ []) ≡ true
    → p ≡ q
same_pid p q rest h = decimal_injective p q (
    digits_before_mark b':' (decimal p) (decimal q) rest (omega arith) (decimal-IsDigit p)
      (decimal-IsDigit q) h)

mark_in_digits : (mark : ℕ) (s t rest : Text) → b'9' < mark → All IsDigit t → s ++ mark ∷ rest ≢ t
mark_in_digits mark [] [] rest m h e = cc
mark_in_digits mark [] (d ∷ t) rest m h e = absurd (ground arith)
mark_in_digits mark (c ∷ s) [] rest m h e = cc
mark_in_digits mark (c ∷ s) (d ∷ t) rest m h e = mark_in_digits mark s t rest m h.1 (cc)

-- `resets` on two process subjects, with the common prefix gone.
resets-pid_prefix :
    (q x : Text)
    → resets (pid_prefix ++ q) (pid_prefix ++ x) ≡ (x == q || starts_with x (q ++ b':' ∷ []))
unfolding resets text_beq starts_with
resets-pid_prefix q x = refl

mark_first : (s : Text) → starts_with (b':' ∷ s) (b':' ∷ []) ≡ true
unfolding starts_with
mark_first s = refl

resets-format :
    (p q : ℕ) (start : Option ℕ)
    → resets (format_pid_subject q none) (format_pid_subject p start) ≡ (p == q)
unfolding format_pid_subject
resets-format p q none = rw (resets-pid_prefix (decimal q) (decimal p)) (
    ground (
      arith,
      no_mark_in_digits b':' (decimal p) (decimal q) (omega arith) (decimal-IsDigit p),
      text_beq_iff (decimal p) (decimal q),
      decimal_injective p q,
      nat_beq_iff p q,
    ))
resets-format p q (some t) =
    rw (resets-pid_prefix (decimal q) (decimal p ++ b':' ∷ decimal t)) (elim (Bool-cases (p == q)) [
      | inl same ↦
          let e : p ≡ q = (nat_beq_iff p q).0 same in
          ground (
            arith,
            ap decimal e,
            starts_with-append_both (decimal p) (b':' ∷ decimal t) (b':' ∷ []),
            mark_first (decimal t),
          )
      | inr other ↦ ground (
        arith,
        text_beq_iff (decimal p ++ b':' ∷ decimal t) (decimal q),
        mark_in_digits b':' (decimal p) (decimal q) (decimal t) (omega arith) (decimal-IsDigit q),
        same_pid p q (decimal t),
        nat_beq_iff p q,
      )
    ])

-- `reset_pid` forgets every score of the process, with or without its start time, and no score of
-- another process: the pid 5 does not reset 51.
pub reset_pid-get :
    (p q : ℕ) (start : Option ℕ) (s : Scorer)
    → get (format_pid_subject p start) (reset_pid q s)
      ≡ (if p == q then none else get (format_pid_subject p start) s)
unfolding reset_pid
reset_pid-get p q start s = rw (
  lookup-remove_key (resets (format_pid_subject q none)) (format_pid_subject p start) s.subjects,
  resets-format,
)

starts_with-shorter : (k p q : Text) → starts_with k (p ++ q) ≡ true → starts_with k p ≡ true
unfolding starts_with
starts_with-shorter k [] q h = refl
starts_with-shorter [] (a ∷ p) q h = h
starts_with-shorter (c ∷ k) (a ∷ p) q h = ground (arith, starts_with-shorter k p q)

resets-other :
    (k : Text) (q : ℕ)
    → starts_with k pid_prefix ≡ false
    → resets (format_pid_subject q none) k ≡ false
unfolding resets format_pid_subject
resets-other k q h = ground (
  arith,
  text_beq_iff k (pid_prefix ++ decimal q),
  starts_with-append pid_prefix (decimal q),
  starts_with-shorter k pid_prefix (decimal q ++ b':' ∷ []),
)

-- A subject that is no process is left alone.
pub reset_pid-other :
    (k : Text) (q : ℕ) (s : Scorer)
    → starts_with k pid_prefix ≡ false
    → get k (reset_pid q s) ≡ get k s
unfolding reset_pid
reset_pid-other k q s h =
    rw (lookup-remove_key (resets (format_pid_subject q none)) k s.subjects, resets-other k q h)
