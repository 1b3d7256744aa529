-- ===== src/Responder.antt =====
-- sentinel/response/responder.py: a process is suspended, its image goes into the quarantine and
-- onto the driver's list, and an event tells of it. The calls of the Windows API and of psutil are
-- given.
pub mod Outcomes
pub mod Isolation
use sentinel_antivirus.Prelude.{
  ℕ, ◌+◌, Bool, false, ◌&&◌, not, Option, none, some, List, [], ◌∷◌, map, if◌then◌else◌, ◌==◌,
  nat_eq, is_empty, is_some, Text, codes, text_eq,
}
use sentinel_antivirus.Dict.{Dict, lookup}
use sentinel_antivirus.Result.{Result, ok, err}
use mathlib.Core.Option
use sentinel_antivirus.Result.{attribute_error}
use sentinel_antivirus.Schema.{Event, Value, null, text, float}
use sentinel_antivirus.Bus.{EventBus, publish}
use sentinel_antivirus.Scoring.Signals.{format_pid_subject}
use sentinel_antivirus.Scoring.Scorer.{Scorer, get}
use sentinel_antivirus.Quarantine.{QuarantineRecord, File, Os, Store, Request, add}
use sentinel_antivirus.Kernel.Blocklist.{Contents}
use sentinel_antivirus.Kernel.Bridge.{Driver, KernelBridge, add_block}

-- The processes: whether one can be opened with an access mask, the NTSTATUS of suspending and of
-- resuming one, and its image as psutil gives it, which is `none` where that raises.
pub record Processes (Procs : Type 0) : Type 0 where
  pub open_process : ℕ → ℕ → Procs → Bool
  pub nt_suspend_process : ℕ → Procs → ℕ × Procs
  pub nt_resume_process : ℕ → Procs → ℕ × Procs
  pub exe : ℕ → Procs → Option Text

-- The errors of a suspension
pub data ProcessError : Type 0 where
  invalid_pid open_process_failed : ProcessError
  returned_status : ℕ → ProcessError

abbrev pub process_suspend_resume : ℕ
process_suspend_resume = 2048

abbrev pub process_query_information : ℕ
process_query_information = 1024

abbrev pub status_error : ℕ → Option ProcessError
status_error status = if status == 0 then none else some (returned_status status)

module _ {Procs : Type 0} (nt : Processes Procs) where
  -- `suspend_process`
  unfoldable pub suspend_process : Option ℕ → Procs → Option ProcessError × Procs
  suspend_process none ps = (some invalid_pid, ps)
  suspend_process (some pid) ps =
      let (status, suspended) = nt.nt_suspend_process pid ps in
      if pid == 0
      then (some invalid_pid, ps)
      else if not (nt.open_process process_suspend_resume pid ps)
      then (some open_process_failed, ps)
      else (status_error status, suspended)

  -- `resume_process`
  unfoldable pub resume_process : Option ℕ → Procs → Option ProcessError × Procs
  resume_process none ps = (some invalid_pid, ps)
  resume_process (some pid) ps =
      let (status, resumed) = nt.nt_resume_process pid ps in
      if pid == 0
      then (some invalid_pid, ps)
      else if not (nt.open_process (process_suspend_resume + process_query_information) pid ps)
      then (some open_process_failed, ps)
      else (status_error status, resumed)

-- What a response takes from outside: the clock, the identifier and the times of the new record and
-- of the event, and whether the database refuses the record.
pub record Moment : Type 0 where
  pub now : ℕ
  pub entry_id : Text
  pub timestamp : Text
  pub utc_timestamp : Text
  pub insert_denied : Bool

-- Why a response did not succeed
pub data Failure : Type 0 where
  suspend_failed : ProcessError → Failure
  file_kept : Failure

-- The result of `quarantine_process`
pub record Outcome : Type 0 where
  pub success : Bool
  pub error : Option Failure
  pub suspension : Option ProcessError
  pub quarantine : Option QuarantineRecord
  pub event_id : Option ℕ

-- What a response changes. The bridge is the one that the store holds, as the consumer sets it.
pub record Machine (Procs Port : Type 0) : Type 0 where
  pub procs : Procs
  pub store : Store (KernelBridge Port)
  pub bus : Option EventBus

-- `path or other`
abbrev pub or_else : Option Text → Option Text → Option Text
or_else none other = other
or_else (some path) other = if is_empty path then other else some path

-- A path, if there is a text in it
abbrev pub if_any_path : Option Text → Option Text
if_any_path path = or_else path none

-- `qrec.id if qrec else None`
abbrev pub value_of : (QuarantineRecord → Text) → Option QuarantineRecord → Value
value_of f none = null
value_of f (some r) = text (f r)

-- The event of a response. Its score is that of a key that the result never has.
unfoldable pub audit_event : Moment → ℕ → Text → Option Text → Option QuarantineRecord → Event
audit_event m pid reason path rec = record {
  timestamp = m.utc_timestamp;
  source = codes "etw_process";
  event_type = codes "process_suspended";
  pid = some pid;
  parent_pid = none;
  image_path = (elim path [ none ↦ some [] | some p ↦ some p ]);
  command_line = none;
  hash_sha256 = none;
  extra =
      (codes "reason", text reason)
      ∷ (codes "quarantine_id", value_of (λ r. r.id) rec)
      ∷ (codes "quarantine_path", value_of (λ r. r.quarantined_path) rec)
      ∷ (codes "score", float 0)
      ∷ [];
}

abbrev pub request_of : Moment → Text → Text → Text → ℕ → List Text → Request
request_of m path subject reason score source_signals = record {
  source_path = path;
  subject = subject;
  reason = reason;
  score = score;
  source_signals = source_signals;
  entry_id = m.entry_id;
  timestamp = m.timestamp;
  insert_denied = m.insert_denied;
}

module _ {Port : Type 0} (os : Os (KernelBridge Port)) (driver : Driver Port) where
  -- The files as the bridge reads them
  abbrev pub contents : Dict Text File → Contents
  contents files path =
      if os.read_denied path
      then none
      else Option.map (λ f. f.bytes) (lookup (os.resolve path) files)

  -- Step 3, where an error of the bridge stops
  unfoldable pub block : ℕ → Text → Store (KernelBridge Port) → Store (KernelBridge Port)
  block now path s = elim s.kernel_bridge [
    | none ↦ s
    | some b ↦ record s {
      kernel_bridge = some (add_block driver (contents s.files) now path false b).1;
    }
  ]

  -- Step 2: `quarantine_store.add` with the score of the process
  unfoldable pub isolate :
      Moment
      → ℕ
      → Text
      → List Text
      → Scorer
      → Text
      → Store (KernelBridge Port)
      → Result (Option QuarantineRecord) × Store (KernelBridge Port)
  isolate m pid reason source_signals scorer path s =
      let subject = format_pid_subject pid none in
      elim (get subject scorer) [
        | none ↦ (err attribute_error, s)
        | some c ↦ add os (request_of m path subject reason c.total source_signals) s
      ]

  -- Steps 2 and 3, for an image that is known or not
  unfoldable pub contain :
      Moment
      → ℕ
      → Text
      → List Text
      → Scorer
      → Option Text
      → Store (KernelBridge Port)
      → Result (Option QuarantineRecord) × Store (KernelBridge Port)
  contain m pid reason source_signals scorer none s = (ok none, s)
  contain m pid reason source_signals scorer (some path) s =
      let (rec, s1) = isolate m pid reason source_signals scorer path s in
      elim rec [ err e ↦ (err e, s1) | ok r ↦ (ok r, block m.now path s1) ]

-- Step 4
unfoldable pub audit : Event → Option EventBus → Option EventBus × Option ℕ
audit e none = (none, none)
audit e (some b) = let (b', rowid) = publish e b in (some b', some rowid)

-- `qrec is None and image_path_resolved`
abbrev pub is_kept : Option QuarantineRecord → Option Text → Bool
is_kept rec path = not (is_some rec) && is_some path

module _ {Procs Port : Type 0} (nt : Processes Procs) (os : Os (KernelBridge Port))
    (driver : Driver Port) where
  -- `quarantine_process` after the suspension
  unfoldable pub respond :
      Moment
      → ℕ
      → Text
      → List Text
      → Scorer
      → Option Text
      → Machine Procs Port
      → Result Outcome × Machine Procs Port
  respond m pid reason source_signals scorer path w =
      let (contained, store) = contain os driver m pid reason source_signals scorer path w.store in
      elim contained [
        | err e ↦ (err e, record w { store = store })
        | ok rec ↦
            let (bus, rowid) = audit (audit_event m pid reason path rec) w.bus in
            (
              ok (record {
                success = not (is_kept rec path);
                error = (if is_kept rec path then some file_kept else none);
                suspension = none;
                quarantine = rec;
                event_id = rowid;
              }),
              record w { store = store; bus = bus },
            )
      ]

  -- `quarantine_process`
  unfoldable pub quarantine_process :
      Moment
      → ℕ
      → Text
      → List Text
      → Scorer
      → Option Text
      → Machine Procs Port
      → Result Outcome × Machine Procs Port
  quarantine_process m pid reason source_signals scorer image_path w =
      let (suspension, procs) = suspend_process nt (some pid) w.procs in
      let suspended = record w { procs = procs } in
      let path = or_else image_path (if_any_path (nt.exe pid procs)) in
      elim suspension [
        | none ↦ respond m pid reason source_signals scorer path suspended
        | some e ↦ (
          ok (record {
            success = false;
            error = some (suspend_failed e);
            suspension = some e;
            quarantine = none;
            event_id = none;
          }),
          suspended,
        )
      ]
