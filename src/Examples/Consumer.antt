-- ===== src/Examples/Consumer.antt =====
-- The consumer on a failed login that is the first of its source.
use sentinel_antivirus.Prelude.{text_eq, ◌≤◌, refl, true, none, [], ◌∷◌, codes}
use sentinel_antivirus.Dict.{insert, lookup, member}
use sentinel_antivirus.Schema.{Event, text}
use sentinel_antivirus.Scoring.Scorer.{Scorer, should_respond}
use sentinel_antivirus.Consumer.{Consumer, Engines, Outside, process_event}
use sentinel_antivirus.Consumer.Covered.{IsCovered, responses_to, allowance, process_event-once}
use sentinel_antivirus.Examples.{event, plain_python}
use sentinel_antivirus.Consumer.{run_consumer}
use sentinel_antivirus.Consumer.Answered.{run_consumer-responds}
use sentinel_antivirus.Prelude.{ℕ, List, ◌≡◌, ◌||◌}

abbrev no_scores : Scorer
no_scores = record { threshold = 20; signal_ttl = 600000; max_subjects = 2; subjects = [] }

abbrev engines : Engines
engines = record {
  rules = [];
  ransomware = record {
    write_rate = 500000;
    entropy_alert = 75000;
    writes = [];
    emitted_rate = [];
    emitted_entropy = [];
  };
  mining = record {
    cpu_percent = 850000;
    cpu_seconds = 60000;
    stratum_ports = [];
    cpu_windows = [];
    emitted_cpu = [];
    emitted_stratum = [];
  };
  bruteforce = record { count_threshold = 1; window = 120000; attempts = []; emitted = [] };
  beacons = record { cv_num = 15; cv_den = 100; cooldown = 60000; streams = [] };
  blocklist = record { blocked_ips = []; blocked_ports = [] };
  reputation = record { clean_loads = []; clean_threshold = 3 };
  trusted_publishers = [];
  trusted_hashes = [];
}

abbrev started : Consumer
started = record {
  auto_respond = true;
  scorer = no_scores;
  engines = engines;
  responded = [];
  start_times = [];
}

abbrev outside : Outside
outside = record { classify = λ e. []; response_error = λ k. none }

abbrev login : Event
login =
    event (codes "eventlog") (codes "login_failed") 5
      ((codes "source_host", text (codes "10.0.0.9")) ∷ [])

started-IsCovered : IsCovered started
unfolding should_respond lookup member
started-IsCovered k r = r

abbrev items : List (List (ℕ × Event))
items = ((1000, login) ∷ (2000, login) ∷ []) ∷ []

login-asks :
    should_respond
      (codes "source:10.0.0.9")
      (run_consumer plain_python outside items started).0.scorer
    ≡ true
unfolding should_respond run_consumer lookup sentinel_antivirus.Consumer.consume_item process_event
    sentinel_antivirus.Consumer.ended_pid sentinel_antivirus.Prelude.text_beq
    sentinel_antivirus.Consumer.detect sentinel_antivirus.Rules.Engine.match_rules
    sentinel_antivirus.Heuristics.BruteForce.process_login_event
    sentinel_antivirus.Heuristics.BruteForce.source_of sentinel_antivirus.Builtins.field
    sentinel_antivirus.Builtins.to_text sentinel_antivirus.Heuristics.BruteForce.process_login
    sentinel_antivirus.Heuristics.Window.slide sentinel_antivirus.Heuristics.BruteForce.deque_of
    member sentinel_antivirus.Scoring.Scorer.add_signal sentinel_antivirus.Scoring.Scorer.make_room
    sentinel_antivirus.Scoring.Scorer.score_of insert sentinel_antivirus.Scoring.Signals.add_to
    sentinel_antivirus.Scoring.Signals.effective_weight
    sentinel_antivirus.Scoring.Signals.default_weight sentinel_antivirus.Prelude.starts_with
    sentinel_antivirus.Consumer.react sentinel_antivirus.Scoring.Scorer.oldest_key
    sentinel_antivirus.Heuristics.BruteForce.subject_for_source
login-asks = refl

run_consumer-responds_example :
    (member (codes "source:10.0.0.9") (run_consumer plain_python outside items started).0.responded
      ≡ true)
    × ((member (codes "source:10.0.0.9") started.responded
          || member (codes "source:10.0.0.9") (run_consumer plain_python outside items started).1)
        ≡ true)
run_consumer-responds_example =
    run_consumer-responds plain_python outside items started (codes "source:10.0.0.9") refl
      started-IsCovered login-asks

process_event-once_example :
    responses_to
      (codes "source:10.0.0.9")
      (process_event plain_python outside 1000 login started).responses
    ≤ allowance (codes "source:10.0.0.9") started
process_event-once_example =
    process_event-once plain_python outside (codes "source:10.0.0.9") 1000 login started
