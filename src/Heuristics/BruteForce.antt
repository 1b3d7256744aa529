-- ===== src/Heuristics/BruteForce.antt =====
-- sentinel/engine/heuristics_bruteforce.py
pub mod Laws
use sentinel_antivirus.Prelude.{
  ℕ, ◌&&◌, Option, none, some, List, [], ◌++◌, ltb, if◌then◌else◌, ◌==◌, nat_eq, length, is_empty,
  Text, codes, text_eq,
}
use sentinel_antivirus.Dict.{Dict, lookup, insert, member, add, discard}
use sentinel_antivirus.Builtins.{Python, to_text, field}
use sentinel_antivirus.Schema.{Event, Value, null}
use sentinel_antivirus.Scoring.Signals.{Signal, new_signal}
use sentinel_antivirus.Heuristics.Window.{slide, count_recent}

pub record BruteForce : Type 0 where
  pub count_threshold : ℕ
  pub window : ℕ
  pub attempts : Dict Text (List ℕ)
  pub emitted : List Text

-- The `source_host` of a failed login
unfoldable pub host_of : Python → Value → Option Text
host_of py null = none
host_of py v = if is_empty (py.strip (to_text py v)) then none else some (to_text py v)

-- `_source_of`
unfoldable pub source_of : Python → Event → Option Text
unfolding host_of
source_of py e =
    if e.event_type == codes "login_failed" && e.source == codes "eventlog"
    then host_of py (field (codes "source_host") e.extra)
    else none

-- `subject_for_source`
unfoldable pub subject_for_source : Text → Text
subject_for_source source = codes "source:" ++ source

-- `self._attempts[source]`, of a `defaultdict(deque)`
unfoldable pub deque_of : Text → Dict Text (List ℕ) → List ℕ
deque_of key d = elim (lookup key d) [ none ↦ [] | some dq ↦ dq ]

abbrev pub burst : ℕ → Text → Signal
burst now source =
    new_signal now (codes "failed_login_burst") (subject_for_source source)
      (codes "bruteforce_heuristic")

-- One failed login from `source`
unfoldable pub process_login : ℕ → Text → BruteForce → BruteForce × Option Signal
process_login now source s =
    let dq = slide s.window now (deque_of source s.attempts) in
    let s' : BruteForce = record s { attempts = insert source dq s.attempts } in
    if ltb (length dq) s.count_threshold
    then (s', none)
    else if member (subject_for_source source) s.emitted
    then (s', none)
    else (
      record s' { emitted = add (subject_for_source source) s.emitted },
      some (burst now source),
    )

-- `process_login_event`
unfoldable pub process_login_event : Python → ℕ → Event → BruteForce → BruteForce × Option Signal
process_login_event py now e s = elim (source_of py e) [
  | none ↦ (s, none)
  | some source ↦ process_login now source s
]

unfoldable pub current_count : ℕ → Text → BruteForce → ℕ
current_count now source s = count_recent s.window now (deque_of source s.attempts)

unfoldable pub clear_source_flag : Text → BruteForce → BruteForce
clear_source_flag source s = record s { emitted = discard (subject_for_source source) s.emitted }
