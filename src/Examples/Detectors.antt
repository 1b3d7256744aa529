-- ===== src/Examples/Detectors.antt =====
-- Failed logins that come in a burst.
use sentinel_antivirus.Prelude.{
  ℕ, ◌+◌, ◌≡◌, ◌&&◌, not, none, some, List, [], ◌∷◌, arith, leb, if◌then◌else◌, nat_eq, pair_eq,
  Text, codes, text_eq,
}
use sentinel_antivirus.Dict.{member}
use sentinel_antivirus.Scoring.Scorer.{Scorer}
use sentinel_antivirus.Heuristics.Window.{IsOrdered}
use sentinel_antivirus.Heuristics.BruteForce.{
  BruteForce, process_login, subject_for_source, current_count, burst,
}
use sentinel_antivirus.Heuristics.BruteForce.Laws.{process_login-signal}

abbrev times : List ℕ
times = 1000 ∷ 2000 ∷ 90000 ∷ []

times-IsOrdered : IsOrdered 125000 times
times-IsOrdered = (
  omega arith,
  (omega arith, (omega arith, tt)),
  (omega arith, (omega arith, tt), (omega arith, tt, tt)),
)

abbrev host : Text
host = codes "10.0.0.9"

abbrev logins : BruteForce
logins = record {
  count_threshold = 2;
  window = 120000;
  attempts = (host, times) ∷ [];
  emitted = [];
}

process_login-signal_example : (process_login 125000 host logins).1 ≡ (
    if leb 2 (current_count 125000 host logins + 1)
      && not (member (subject_for_source host) logins.emitted)
    then some (burst 125000 host)
    else none)
process_login-signal_example = process_login-signal 125000 host logins (times-IsOrdered, tt)

abbrev pub no_scores : Scorer
no_scores = record { threshold = 80; signal_ttl = 600000; max_subjects = 2; subjects = [] }
