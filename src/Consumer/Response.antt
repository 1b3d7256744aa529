-- ===== src/Consumer/Response.antt =====
-- `_execute_response` of sentinel/engine/consumer.py: the response to a subject, over the
-- processes, the quarantine, the driver and the bus. What is shown to the user is a list of alerts.
pub mod Effects
use sentinel_antivirus.Prelude.{
  ℕ, Bool, false, Option, none, some, List, [], ◌∷◌, ◌++◌, map, if◌then◌else◌, ◌==◌, nat_eq, Text,
  codes, text_eq, starts_with, decimal, skip,
}
use sentinel_antivirus.Dict.{lookup}
use sentinel_antivirus.Result.{◌>>=◌, Error, type_error, Result, ok, err}
use mathlib.Core.Option
use sentinel_antivirus.Builtins.{Python}
use sentinel_antivirus.Schema.{Event, Value, text}
use sentinel_antivirus.Scoring.Signals.{Signal, SubjectScore, pid_prefix}
use sentinel_antivirus.Scoring.Scorer.{Scorer, get}
use sentinel_antivirus.Quarantine.{
  QuarantineRecord, Os, Store, add, is_file, is_restored, sha256_of,
}
use sentinel_antivirus.Kernel.Bridge.{Driver, KernelBridge}
use sentinel_antivirus.Responder.{
  Processes, Moment, Machine, if_any_path, request_of, block, quarantine_process,
}

-- What `notify_alert` is called with
pub record Alert : Type 0 where
  pub process_name : Text
  pub reason : Text
  pub pid : Option ℕ
  pub quarantine_id : Option Text
  pub score : ℕ

-- What a response changes, with the alerts that it gave
pub record Scene (Procs Port : Type 0) : Type 0 where
  pub machine : Machine Procs Port
  pub alerts : List Alert

-- `score.total if score else 0.0`
abbrev pub score_value : Option SubjectScore → ℕ
score_value none = 0
score_value (some c) = c.total

-- `[s.kind for s in score.signals] if score else [sig.kind]`
abbrev pub kinds_of : Option SubjectScore → Signal → List Text
kinds_of none sig = sig.kind ∷ []
kinds_of (some c) sig = map (λ s. s.kind) c.signals

-- `if pid`
abbrev pub if_any_pid : Option ℕ → Option ℕ
if_any_pid none = none
if_any_pid (some pid) = if pid == 0 then none else some pid

-- The process of a subject: `int(subject[4:])`, where it is a number other than 0
unfoldable pub response_pid : Python → Text → Option ℕ
response_pid py subject =
    if starts_with subject pid_prefix then if_any_pid (py.parse_int (skip 4 subject)) else none

-- `event.pid == pid`
abbrev is_of : ℕ → Event → Bool
is_of pid e = elim e.pid [ none ↦ false | some p ↦ p == pid ]

-- The image that the event names for the process
unfoldable pub event_image : ℕ → Option Event → Option Text
event_image pid none = none
event_image pid (some e) = if is_of pid e then if_any_path e.image_path else none

-- `image_path or f"PID {pid}"`
abbrev pub process_name_of : Option Text → ℕ → Text
process_name_of none pid = codes "PID " ++ decimal pid
process_name_of (some path) pid = path

-- `Path(value)` of a value in an event
abbrev path_of_value : Value → Result Text
path_of_value (text t) = ok t
path_of_value v = err type_error

module _ {Port : Type 0} (os : Os (KernelBridge Port)) (driver : Driver Port) where
  -- `path`, where it is a file
  abbrev pub if_file : Text → Store (KernelBridge Port) → Option Text
  if_file path s = if is_file os path s.files then some path else none

  -- `event.image_path and Path(event.image_path).is_file()`
  abbrev pub image_file : Event → Store (KernelBridge Port) → Option Text
  image_file e s = elim (if_any_path e.image_path) [ none ↦ none | some path ↦ if_file path s ]

  -- The file of an event: its image, or else the path in its `extra`
  unfoldable pub event_file : Option Event → Store (KernelBridge Port) → Result (Option Text)
  event_file none s = ok none
  event_file (some e) s = elim (image_file e s) [
    | some path ↦ ok (some path)
    | none ↦ elim (lookup (codes "path") e.extra) [
      | none ↦ ok none
      | some v ↦ do path ← path_of_value v; ok (if_file path s)
    ]
  ]

  -- The response to a file that was not restored: the quarantine, and the driver's list
  unfoldable pub contain_file :
      Moment
      → Text
      → Text
      → Signal
      → Option SubjectScore
      → Text
      → Store (KernelBridge Port)
      → Result (Option QuarantineRecord) × Store (KernelBridge Port)
  contain_file m subject reason sig score path s =
      let request = request_of m path subject reason (score_value score) (kinds_of score sig) in
      let (rec, s1) = add os request s in
      elim rec [ err e ↦ (err e, s1) | ok r ↦ (ok r, block os driver m.now path s1) ]

  -- Case B
  unfoldable pub respond_to_file :
      {Procs : Type 0}
      → Moment
      → Text
      → Text
      → Signal
      → Option SubjectScore
      → Option Event
      → Scene Procs Port
      → Option Error × Scene Procs Port
  respond_to_file m subject reason sig score event w = elim (event_file event w.machine.store) [
    | err e ↦ (some e, w)
    | ok none ↦ (none, w)
    | ok (some path) ↦
        let s = w.machine.store in
        let (rec, s1) = contain_file m subject reason sig score path s in
        let kept = record w { machine = record w.machine { store = s1 } } in
        if is_restored (sha256_of os path s.files) s then (none, w) else elim rec [
          | err e ↦ (some e, kept)
          | ok r ↦ (
            none,
            record kept {
              alerts =
                  w.alerts
                  ++ record {
                    process_name = os.file_name path;
                    reason = reason;
                    pid = none;
                    quarantine_id = Option.map (λ q. q.id) r;
                    score = score_value score;
                  }
                    ∷ [];
            },
          )
        ]
  ]

module _ {Procs Port : Type 0} (nt : Processes Procs) (os : Os (KernelBridge Port))
    (driver : Driver Port) where
  -- Case A
  unfoldable pub respond_to_process :
      Moment
      → ℕ
      → Text
      → Signal
      → Scorer
      → Option SubjectScore
      → Option Event
      → Scene Procs Port
      → Option Error × Scene Procs Port
  respond_to_process m pid reason sig scorer score event w =
      let image_path = event_image pid event in
      let (result, machine) =
        quarantine_process nt os driver m pid reason (kinds_of score sig) scorer image_path
          w.machine in
      let done = record w { machine = machine } in
      elim result [
        | err e ↦ (some e, done)
        | ok o ↦ (
          none,
          record done {
            alerts =
                w.alerts
                ++ record {
                  process_name = process_name_of image_path pid;
                  reason = reason;
                  pid = some pid;
                  quarantine_id = Option.map (λ q. q.id) o.quarantine;
                  score = score_value score;
                }
                  ∷ [];
          },
        )
      ]

  -- `_execute_response` for a signal and its reason, with what it raises
  unfoldable pub execute_response :
      Python
      → Moment
      → Text
      → Text
      → Signal
      → Scorer
      → Option Event
      → Scene Procs Port
      → Option Error × Scene Procs Port
  execute_response py m subject reason sig scorer event w =
      let score = get subject scorer in
      elim (response_pid py subject) [
        | some pid ↦ respond_to_process m pid reason sig scorer score event w
        | none ↦ respond_to_file os driver m subject reason sig score event w
      ]
