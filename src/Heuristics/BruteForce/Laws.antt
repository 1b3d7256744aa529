-- ===== src/Heuristics/BruteForce/Laws.antt =====
-- When a burst of failed logins is reported.
use sentinel_antivirus.Prelude.{
  ℕ, ◌+◌, ◌≤◌, ◌≡◌, inl, inr, ◌&&◌, not, Option, none, some, List, [], ◌∷◌, arith, leb,
  if◌then◌else◌, ◌==◌, nat_eq, pair_eq, Option-cases, length, keep, Text, text_beq_iff, text_eq,
}
use sentinel_antivirus.Dict.{lookup, insert, member, member-add}
use sentinel_antivirus.Dict.Entries.{AllEntries, AllEntries-insert, AllEntries-lookup}
use sentinel_antivirus.Scoring.Signals.{Signal}
use sentinel_antivirus.Heuristics.Window.{slide, IsOrdered, slide_lem, length-slide}
use sentinel_antivirus.Heuristics.BruteForce.{
  BruteForce, subject_for_source, deque_of, burst, process_login, current_count,
}

-- The recorded times of every source are in order and not after `now`.
abbrev pub IsValid : ℕ → BruteForce → Type 0
IsValid now s = AllEntries (λ k dq. IsOrdered now dq) s.attempts

deque_of-IsOrdered :
    (now : ℕ) (source : Text) (s : BruteForce)
    → IsValid now s
    → IsOrdered now (deque_of source s.attempts)
unfolding deque_of
deque_of-IsOrdered now source s v = elim (Option-cases (lookup source s.attempts)) [
  | inl e ↦ rw (e, deque_of) tt
  | inr (dq, e) ↦
      rw (e, deque_of) (AllEntries-lookup (λ k dq. IsOrdered now dq) source s.attempts v e)
]

attempts-process_login :
    (now : ℕ) (source : Text) (s : BruteForce)
    → (process_login now source s).0.attempts
      ≡ insert source (slide s.window now (deque_of source s.attempts)) s.attempts
unfolding process_login
attempts-process_login now source s = ground arith

-- As long as the clock does not go back, each login keeps the times in order.
pub process_login-IsValid :
    (now : ℕ) (source : Text) (s : BruteForce)
    → IsValid now s
    → IsValid now (process_login now source s).0
process_login-IsValid now source s v = rw (attempts-process_login now source s) (
    AllEntries-insert (λ k dq. IsOrdered now dq) source _ s.attempts
      (slide_lem s.window now _ (deque_of-IsOrdered now source s v)).0 v)

-- A burst is reported exactly when the failed logins of the source in the window, this one
-- included, reach the threshold and the source has not been reported before.
pub process_login-signal :
    (now : ℕ) (source : Text) (s : BruteForce)
    → IsValid now s
    → (process_login now source s).1 ≡ (
        if leb s.count_threshold (current_count now source s + 1)
          && not (member (subject_for_source source) s.emitted)
        then some (burst now source)
        else none)
unfolding process_login current_count
process_login-signal now source s v = ground (
  arith,
  length-slide s.window now (deque_of source s.attempts) (deque_of-IsOrdered now source s v),
)

-- The signals of a series of failed logins, each with its time.
unfoldable pub run_logins : List (ℕ × Text) → BruteForce → List Signal
run_logins [] s = []
run_logins ((now, source) ∷ es) s =
    let (s', o) = process_login now source s in
    let rest = run_logins es s' in elim o [ none ↦ rest | some g ↦ g ∷ rest ]

-- The number of signals about a subject
abbrev pub signals_about : Text → List Signal → ℕ
signals_about subject gs = length (keep (λ g. g.subject == subject) gs)

-- The signals that a subject has left
abbrev allowance : Text → BruteForce → ℕ
allowance k s = if member k s.emitted then 0 else 1

abbrev about : Text → Option Signal → ℕ
about k none = 0
about k (some g) = if g.subject == k then 1 else 0

process_login-allowance :
    (now : ℕ) (source k : Text) (s : BruteForce)
    → about k (process_login now source s).1 + allowance k (process_login now source s).0
      ≤ allowance k s
unfolding process_login
process_login-allowance now source k s = ground (
  arith,
  text_beq_iff (subject_for_source source) k,
  member-add (subject_for_source source) k s.emitted,
)

run_logins-allowance :
    (k : Text) (es : List (ℕ × Text)) (s : BruteForce)
    → signals_about k (run_logins es s) ≤ allowance k s
unfolding run_logins
run_logins-allowance k [] s = ground arith
run_logins-allowance k ((now, source) ∷ es) s = ground (
  arith,
  process_login-allowance now source k s,
  run_logins-allowance k es (process_login now source s).0,
)

-- However many logins fail, there is at most one signal about each source, and none about a source
-- that was reported before.
pub run_logins-at_most_one :
    (source : Text) (es : List (ℕ × Text)) (s : BruteForce)
    → signals_about (subject_for_source source) (run_logins es s)
      ≤ (if member (subject_for_source source) s.emitted then 0 else 1)
run_logins-at_most_one source es s = run_logins-allowance (subject_for_source source) es s
