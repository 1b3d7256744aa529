-- ===== src/Consumer.antt =====
-- `DetectionConsumer` of sentinel/engine/consumer.py: what one event and one periodic check do. The
-- static classifier and the response are outside of this model: what they return is given.
pub mod Covered
pub mod Answered
pub mod Response
use sentinel_antivirus.Prelude.{
  ℕ, Bool, true, ◌&&◌, ◌||◌, not, Option, none, some, List, [], ◌∷◌, ◌++◌, if◌then◌else◌, ◌==◌,
  nat_eq, Text, codes, text_eq,
}
use sentinel_antivirus.Dict.{Dict, lookup, has_key, insert, erase, member, add, discard_if}
use sentinel_antivirus.Result.{Error, Result, ok, err}
use sentinel_antivirus.Builtins.{Python, to_float, truthy, field}
use sentinel_antivirus.Schema.{Event, Value, null, bool, int}
use sentinel_antivirus.Scoring.Signals.{Signal, format_pid_subject}
use sentinel_antivirus.Scoring.Scorer.{
  Scorer, add_signal, should_respond, resets, reset_pid, decay, evict_stale,
}
use sentinel_antivirus.Scoring.Dll.{DllLoadContext, DllReputationCache, score_dll_load}
use sentinel_antivirus.Heuristics.BruteForce.{BruteForce, process_login_event}
use sentinel_antivirus.Heuristics.Ransomware.{Ransomware, process_fs_event}
use sentinel_antivirus.Heuristics.Network.{
  BeaconDetector, C2Blocklist, process_connection, check_connection, reset_streams,
}
use sentinel_antivirus.Heuristics.Mining.{
  Mining, Reading, sample_cpu, clear_cpu_flag, check_network_event,
}
use sentinel_antivirus.Rules.Engine.{Rule, match_rules}

-- The detection engines, with the publishers and hashes that are trusted
pub record Engines : Type 0 where
  pub rules : List Rule
  pub ransomware : Ransomware
  pub mining : Mining
  pub bruteforce : BruteForce
  pub beacons : BeaconDetector
  pub blocklist : C2Blocklist
  pub reputation : DllReputationCache
  pub trusted_publishers : List Text
  pub trusted_hashes : List Text

pub record Consumer : Type 0 where
  pub auto_respond : Bool
  pub scorer : Scorer
  pub engines : Engines
  pub responded : List Text
  pub start_times : Dict ℕ ℕ

-- What the consumer calls outside of this model: the static classifier, which gives no signals
-- where it raises, and the response to a subject, which may raise.
pub record Outside : Type 0 where
  pub classify : Event → List Signal
  pub response_error : Text → Option Error

-- The consumer after some signals, the subjects that were responded to in order, and what was
-- raised
pub record Fed : Type 0 where
  pub consumer : Consumer
  pub responses : List Text
  pub raised : Option Error

abbrev pub is_exit : Event → Bool
is_exit e = e.event_type == codes "process_exit" || e.event_type == codes "process_terminate"

-- The process that an event ends
unfoldable pub ended_pid : Event → Option ℕ
ended_pid e = if is_exit e then e.pid else none

-- A process that ends: its scores, its flags and its responses are forgotten.
unfoldable pub forget : ℕ → Consumer → Consumer
forget pid c = record c {
  scorer = reset_pid pid c.scorer;
  engines = record c.engines {
    mining = clear_cpu_flag pid c.engines.mining;
    beacons = reset_streams pid c.engines.beacons;
  };
  start_times = erase pid c.start_times;
  responded = discard_if (resets (format_pid_subject pid none)) c.responded;
}

-- `extra.get("create_time") or extra.get("process_start_time")`
abbrev pub start_value : Event → Value
start_value e =
    let created = field (codes "create_time") e.extra in
    if truthy created then created else field (codes "process_start_time") e.extra

-- The start time is noted once for each pid; what is no number is skipped.
unfoldable pub note_start : Python → Event → Dict ℕ ℕ → Dict ℕ ℕ
note_start py e times = elim e.pid [
  | none ↦ times
  | some pid ↦
      if has_key pid times
      then times
      else elim (to_float py (start_value e)) [ err x ↦ times | ok t ↦ insert pid t times ]
]

abbrev pub listed : Option Signal → List Signal
listed none = []
listed (some g) = g ∷ []

-- An engine that raises gives no signals.
abbrev pub or_no_signals : Result (List Signal) → List Signal
or_no_signals (ok gs) = gs
or_no_signals (err x) = []

abbrev pub or_no_signal : Result (Option Signal) → List Signal
or_no_signal (ok g) = listed g
or_no_signal (err x) = []

-- `extra.get("loader_pid", event.pid)`
abbrev pub loader_pid_of : Event → Value
loader_pid_of e = elim (lookup (codes "loader_pid") e.extra) [
  | none ↦ elim e.pid [ none ↦ null | some pid ↦ int pid ]
  | some v ↦ v
]

-- `signed` matters only where it is `False`.
abbrev pub signed_of : Value → Option Bool
signed_of (bool b) = some b
signed_of v = none

-- `bool(extra.get(key, True))`
abbrev pub true_unless : Text → Event → Bool
true_unless key e = elim (lookup key e.extra) [ none ↦ true | some v ↦ truthy v ]

-- The context of an image load; its publisher is never filled in.
unfoldable pub load_context : Event → DllLoadContext
load_context e = record {
  dll_hash = e.hash_sha256;
  publisher = none;
  loader_pid = loader_pid_of e;
  target_pid = e.pid;
  signed = signed_of (field (codes "signed") e.extra);
  reflective = truthy (field (codes "reflective") e.extra);
  host_normally_injected = true_unless (codes "host_normally_injected") e;
  has_cpu_anomaly = truthy (field (codes "has_cpu_anomaly") e.extra);
  has_network_anomaly = truthy (field (codes "has_network_anomaly") e.extra);
}

module _ (py : Python) (out : Outside) where
  -- Step 3, with no canary manager
  unfoldable pub file_signals : ℕ → Event → Engines → Engines × List Signal
  file_signals now e c =
      let (s, found) = process_fs_event py none now e c.ransomware in
      (record c { ransomware = s }, or_no_signals found ++ out.classify e)

  -- The stratum check of step 4
  unfoldable pub stratum_signals : ℕ → Event → Engines → Engines × List Signal
  stratum_signals now e c = elim (check_network_event py now e c.mining) [
    | err x ↦ (c, [])
    | ok (s, g) ↦ (record c { mining = s }, listed g)
  ]

  -- Step 4
  unfoldable pub network_signals : ℕ → Event → Engines → Engines × List Signal
  unfolding stratum_signals
  network_signals now e c =
      let (c', stratum) = stratum_signals now e c in
      let (b, beacon) = process_connection now e c'.beacons in
      (
        record c' { beacons = b },
        stratum ++ (or_no_signal (check_connection py now e c.blocklist) ++ listed beacon),
      )

  -- Steps 3 to 6, by the type of the event
  unfoldable pub engine_signals : ℕ → Event → Engines → Engines × List Signal
  unfolding file_signals network_signals load_context
  engine_signals now e c =
      if e.event_type == codes "file_write"
        || e.event_type == codes "file_create"
        || e.event_type == codes "file_modified"
      then file_signals now e c
      else if e.event_type == codes "connection"
      then network_signals now e c
      else if e.event_type == codes "login_failed"
      then (let (s, g) = process_login_event py now e c.bruteforce in
          (record c { bruteforce = s }, listed g))
      else if e.event_type == codes "image_load"
      then (let (gs, r) =
            score_dll_load now (load_context e) c.reputation c.trusted_publishers
              c.trusted_hashes in
          (record c { reputation = r }, gs))
      else (c, [])

module _ (out : Outside) where
  -- The body of the loop of step 7 after `add_signal`
  unfoldable pub react : Text → Consumer → Fed
  react subject c =
      if (c.auto_respond && should_respond subject c.scorer) && not (member subject c.responded)
      then record {
        consumer = record c { responded = add subject c.responded };
        responses = subject ∷ [];
        raised = out.response_error subject;
      }
      else record { consumer = c; responses = []; raised = none }

  -- Step 7: what raises ends the loop.
  unfoldable pub feed : ℕ → List Signal → Consumer → Fed
  feed now [] c = record { consumer = c; responses = []; raised = none }
  feed now (g ∷ gs) c = elim (add_signal now g c.scorer) [
    | err x ↦ record { consumer = c; responses = []; raised = some x }
    | ok (s, total) ↦
        let r = react g.subject (record c { scorer = s }) in
        let rest = feed now gs r.consumer in
        elim r.raised [
          | some x ↦ r
          | none ↦ record rest { responses = r.responses ++ rest.responses }
        ]
  ]

module _ (py : Python) (out : Outside) where
  -- Steps 2 to 7
  unfoldable pub detect : ℕ → Event → Consumer → Fed
  unfolding engine_signals feed note_start
  detect now e c =
      let (engines, found) = engine_signals py out now e c.engines in
      feed out now (match_rules py now e c.engines.rules ++ found)
        (record c { engines = engines; start_times = note_start py e c.start_times })

  -- `process_event`
  unfoldable pub process_event : ℕ → Event → Consumer → Fed
  process_event now e c = elim (ended_pid e) [
    | none ↦ detect now e c
    | some pid ↦ record { consumer = forget pid c; responses = []; raised = none }
  ]

  -- The events of an item that `consume` gives, one event or a list, each with its time: what one
  -- raises drops the rest of the list.
  unfoldable pub consume_item : List (ℕ × Event) → Consumer → Fed
  consume_item [] c = record { consumer = c; responses = []; raised = none }
  consume_item ((now, e) ∷ es) c =
      let r = process_event now e c in
      let rest = consume_item es r.consumer in
      elim r.raised [
        | some x ↦ r
        | none ↦ record rest { responses = r.responses ++ rest.responses }
      ]

  -- `_run_consumer` over the items that come, with the subjects that were responded to. What is
  -- raised is caught. The periodic checks, which a round makes where ten seconds have gone, are a
  -- function of their own.
  unfoldable pub run_consumer : List (List (ℕ × Event)) → Consumer → Consumer × List Text
  run_consumer [] c = (c, [])
  run_consumer (item ∷ items) c =
      let r = consume_item item c in
      let (c', later) = run_consumer items r.consumer in (c', r.responses ++ later)

  -- `_periodic_checks`, on the readings of the processes: what the signals raise is caught.
  unfoldable pub periodic_checks : ℕ → List (ℕ × Reading) → Consumer → Consumer × List Text
  unfolding feed
  periodic_checks now readings c =
      let (s, gs) = sample_cpu now readings c.engines.mining in
      let fed = feed out now gs (record c { engines = record c.engines { mining = s } }) in
      let (fresh, dead) = decay (some 600000) now fed.consumer.scorer in
      let (left, count) = evict_stale 3600000 now fresh in
      (record fed.consumer { scorer = left }, fed.responses)
