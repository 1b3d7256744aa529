-- ===== src/Scoring/Scorer.antt =====
-- `Scorer` of sentinel/engine/scoring.py. Its methods run under a lock, so each is one step.
pub mod Totals
pub mod Respond
pub mod Decay
pub mod Reset
use sentinel_antivirus.Prelude.{
  nat_eq, ℕ, ◌+◌, min, Bool, false, ◌&&◌, ◌||◌, not, Option, none, some, List, [], ◌∷◌, ◌++◌, ltb,
  leb, if◌then◌else◌, ◌==◌, length, keep, is_empty, Text, codes, text_eq, starts_with,
}
use sentinel_antivirus.Dict.{Dict, map_values, remove_if, lookup, has_key, insert, erase}
use sentinel_antivirus.Result.{◌>>=◌, value_error, Result, ok, err}
use sentinel_antivirus.Scoring.Signals.{
  Signal, SubjectScore, is_dll, empty_score, add_to, total_weight, dll_kinds, pid_prefix,
  format_pid_subject,
}

abbrev pub Subjects : Type 0
Subjects = Dict Text SubjectScore

pub record Scorer : Type 0 where
  pub threshold : ℕ
  pub signal_ttl : ℕ
  pub max_subjects : ℕ
  pub subjects : Subjects

-- `min(d, key=…)`: the first of the least; on an empty dict Python raises.
unfoldable pub least_from : Text → ℕ → Subjects → Text
least_from k t [] = k
least_from k t ((j, c) ∷ d) =
    least_from (if ltb c.last_updated t then j else k) (min c.last_updated t) d

unfoldable pub oldest_key : Subjects → Result Text
unfolding least_from
oldest_key [] = err value_error
oldest_key ((k, c) ∷ d) = ok (least_from k c.last_updated d)

-- The eviction at the head of `add_signal`.
unfoldable pub make_room : Text → Scorer → Result Subjects
make_room subject s =
    if leb s.max_subjects (length s.subjects) && not (has_key subject s.subjects)
    then (do k ← oldest_key s.subjects; ok (erase k s.subjects))
    else ok s.subjects

-- `self._subjects.setdefault(subject, SubjectScore(subject))`
unfoldable pub score_of : ℕ → Text → Subjects → SubjectScore
score_of now subject d = elim (lookup subject d) [ none ↦ empty_score now subject | some c ↦ c ]

-- The new scorer, and the score that is returned.
unfoldable pub add_signal : ℕ → Signal → Scorer → Result (Scorer × SubjectScore)
add_signal now sig s = do
  d ← make_room sig.subject s
  let c = add_to (score_of now sig.subject d) sig
  ok (record s { subjects = insert sig.subject c d }, c)

-- `add_signals`, with the score that the last one returns
unfoldable pub add_signals :
    ℕ → List Signal → Scorer → Option SubjectScore → Result (Scorer × Option SubjectScore)
add_signals now [] s last = ok (s, last)
add_signals now (sig ∷ sigs) s last = do
  (s', c) ← add_signal now sig s
  add_signals now sigs s' (some c)

abbrev pub get : Text → Scorer → Option SubjectScore
get subject s = lookup subject s.subjects

unfoldable pub crosses_threshold : Text → Scorer → Bool
crosses_threshold subject s = elim (get subject s) [
  | none ↦ false
  | some c ↦ leb s.threshold c.total
]

abbrev pub is_reflective : Signal → Bool
is_reflective g = g.kind == codes "dll_reflective"

-- A signal that counts by itself: from another engine, or a reflective mapping.
abbrev pub corroborates : Signal → Bool
corroborates g = not (is_dll g) || is_reflective g

unfoldable pub responds : ℕ → SubjectScore → Bool
responds threshold c =
    if ltb c.total threshold
    then false
    else not (is_empty (keep (λ g. not (is_dll g)) c.signals))
      || not (is_empty (keep is_reflective c.signals))

unfoldable pub should_respond : Text → Scorer → Bool
unfolding responds
should_respond subject s = elim (get subject s) [ none ↦ false | some c ↦ responds s.threshold c ]

-- The keys that `reset(subject)` drops.
unfoldable pub resets : Text → Text → Bool
resets subject k =
    k == subject || (starts_with subject pid_prefix && starts_with k (subject ++ b':' ∷ []))

unfoldable pub reset : Option Text → Scorer → Scorer
unfolding resets
reset none s = record s { subjects = [] }
reset (some subject) s = record s { subjects = remove_if (λ k _. resets subject k) s.subjects }

unfoldable pub reset_pid : ℕ → Scorer → Scorer
unfolding reset
reset_pid pid s = reset (some (format_pid_subject pid none)) s

-- `timestamp >= now - ttl`
abbrev pub is_fresh : ℕ → ℕ → Signal → Bool
is_fresh now ttl g = leb now (g.timestamp + ttl)

-- The loop body of `decay`
unfoldable pub decay_score : ℕ → ℕ → SubjectScore → SubjectScore
decay_score now ttl c =
    let active = keep (is_fresh now ttl) c.signals in
    if length active == length c.signals then c else record c {
      signals = active;
      total = total_weight active;
      dll_components = dll_kinds active;
      last_updated = now;
    }

-- `not subj.signals or subj.total <= 0`
abbrev pub is_dead : SubjectScore → Bool
is_dead c = is_empty c.signals || c.total == 0

-- The keys of the dead
unfoldable pub dead_keys : Subjects → List Text
dead_keys [] = []
dead_keys ((k, c) ∷ d) = let rest = dead_keys d in if is_dead c then k ∷ rest else rest

-- The scorer after `decay`, and the keys that were dropped
unfoldable pub decay : Option ℕ → ℕ → Scorer → Scorer × List Text
decay ttl now s =
    let t : ℕ = elim ttl [ none ↦ s.signal_ttl | some t ↦ t ] in
    let d = map_values (decay_score now t) s.subjects in
    (record s { subjects = remove_if (λ _ c. is_dead c) d }, dead_keys d)

-- `last_updated < now - max_age`
abbrev pub is_stale : ℕ → ℕ → SubjectScore → Bool
is_stale max_age now c = ltb (c.last_updated + max_age) now

-- The scorer after `evict_stale`, and how many subjects it dropped
unfoldable pub evict_stale : ℕ → ℕ → Scorer → Scorer × ℕ
evict_stale max_age now s = (
  record s { subjects = remove_if (λ _ c. is_stale max_age now c) s.subjects },
  length (keep (λ e. is_stale max_age now e.1) s.subjects),
)
