-- ===== src/Examples/Responses.antt =====
-- A program that is suspended, taken away and blocked, and one that the user restored.
use sentinel_antivirus.Prelude.{
  ℕ, ◌+◌, ◌-◌, ◌/◌, ◌≡◌, refl, ◌⊎◌, Bool, true, false, Option, none, some, List, [], ◌∷◌, ◌++◌, map,
  arith, if◌then◌else◌, nat_eq, pair_eq, is_some, Text, codes, text_beq, text_eq, starts_with,
  decimal,
}
use sentinel_antivirus.Dict.{lookup, insert}
use sentinel_antivirus.Result.{Result, ok}
use mathlib.Core.Option
use sentinel_antivirus.Bus.{EventBus, publish}
use sentinel_antivirus.Scoring.Signals.{Signal, SubjectScore, format_pid_subject}
use sentinel_antivirus.Scoring.Scorer.{Scorer}
use sentinel_antivirus.Quarantine.{
  pending, QuarantineRecord, File, Os, Store, Request, find_row, record_of, restore, decision_beq,
}
use sentinel_antivirus.Quarantine.Add.{isolated, target}
use sentinel_antivirus.Kernel.Bridge.{KernelBridge}
use sentinel_antivirus.Responder.{
  Processes, Moment, Outcome, Machine, request_of, suspend_process, quarantine_process,
}
use sentinel_antivirus.Responder.Outcomes.{suspension, Published, quarantine_process-audit}
use sentinel_antivirus.Responder.Isolation.{
  Blocks, FindsNone, returned, quarantine_process-isolates,
}
use sentinel_antivirus.Consumer.Response.{Scene, response_pid, event_file, execute_response}
use sentinel_antivirus.Consumer.Response.Effects.{IsIntact, execute_response-restored}
use sentinel_antivirus.Schema.{Event, text}
use sentinel_antivirus.Examples.{plain_python, event}
use sentinel_antivirus.Examples.Kernel.{driver, start}

-- The list of the processes that are suspended
abbrev processes : Processes (List ℕ)
processes = record {
  open_process = λ access pid ps. true;
  nt_suspend_process = λ pid ps. (0, pid ∷ ps);
  nt_resume_process = λ pid ps. (0, ps);
  exe = λ pid ps. some (codes "a.exe");
}

abbrev system : Os (KernelBridge ℕ)
system = record {
  sha256_hex = λ b. b;
  resolve = λ p. p;
  file_name = λ p. p;
  in_quarantine_dir = λ n. codes "/q/" ++ n;
  read_denied = λ p. false;
  copy_denied = λ p q. false;
  unlink_denied = λ p f. f.read_only;
  chmod_denied = λ p. false;
  remove_block = λ p k. k;
}

abbrev program : File
program = record { bytes = codes "ms"; executable = true; read_only = false }

abbrev connected : KernelBridge ℕ
connected = record start { connected = true }

abbrev disk : Store (KernelBridge ℕ)
disk = record { rows = []; files = (codes "a.exe", program) ∷ []; kernel_bridge = some connected }

abbrev bus : EventBus
bus = record { rows = []; queue = []; queue_size = 10; high_volume_batch = 5; batch = [] }

abbrev machine : Machine (List ℕ) ℕ
machine = record { procs = []; store = disk; bus = some bus }

abbrev moment : Moment
moment = record {
  now = 1;
  entry_id = codes "01";
  timestamp = codes "t";
  utc_timestamp = codes "u";
  insert_denied = false;
}

abbrev score : SubjectScore
score = record {
  subject = codes "pid:5";
  total = 85;
  signals = [];
  dll_components = [];
  created_at = 0;
  last_updated = 0;
}

abbrev scorer : Scorer
scorer = record {
  threshold = 80;
  signal_ttl = 100;
  max_subjects = 10;
  subjects = (codes "pid:5", score) ∷ [];
}

abbrev reason : Text
reason = codes "canary"

driver-FindsNone : FindsNone (driver 0)
driver-FindsNone files path e = rw e refl

abbrev request : Request
request = request_of moment (codes "a.exe") (format_pid_subject 5 none) reason 85 []

abbrev taken : QuarantineRecord
taken = record {
  id = codes "01";
  subject = codes "pid:5";
  original_path = codes "a.exe";
  quarantined_path = codes "/q/01_a.exe";
  sha256 = codes "ms";
  reason = reason;
  score = 85;
  timestamp = codes "t";
  source_signals = [];
  decision = pending;
  notes = [];
  decided_at = none;
}

abbrev response : Result Outcome × Machine (List ℕ) ℕ
response = quarantine_process processes system (driver 0) moment 5 reason [] scorer none machine

abbrev outcome : Outcome
outcome = record {
  success = true;
  error = none;
  suspension = none;
  quarantine = some taken;
  event_id = some 1;
}

response-outcome : response.0 ≡ ok outcome
unfolding quarantine_process suspend_process sentinel_antivirus.Responder.respond
    sentinel_antivirus.Responder.contain sentinel_antivirus.Responder.isolate
    sentinel_antivirus.Responder.audit sentinel_antivirus.Responder.block publish
    sentinel_antivirus.Quarantine.add sentinel_antivirus.Quarantine.move_file
    sentinel_antivirus.Quarantine.unlink sentinel_antivirus.Quarantine.insert_row record_of find_row
    sentinel_antivirus.Quarantine.strip_execute sentinel_antivirus.Quarantine.sha256_of lookup
    insert sentinel_antivirus.Dict.remove_if sentinel_antivirus.Prelude.text_beq format_pid_subject
    decimal sentinel_antivirus.Prelude.digits sentinel_antivirus.Bus.persist
response-outcome = refl

quarantine_process-audit_example :
    (((suspension processes system (driver 0) moment 5 reason [] scorer none machine).0 ≡ none)
      × Published processes system
          (driver 0)
          moment
          5
          reason
          []
          scorer
          none
          machine
          bus
          outcome
          response.1.bus)
    ⊎ ((is_some (suspension processes system (driver 0) moment 5 reason [] scorer none machine).0
          ≡ true)
        × (outcome.success ≡ false)
        × (response.1.store ≡ disk)
        × (response.1.bus ≡ some bus))
quarantine_process-audit_example =
    quarantine_process-audit processes system (driver 0) moment 5 reason [] scorer none machine refl
      response-outcome

quarantine_process-isolates_example :
    (Option.map {B = Bool × Option QuarantineRecord}
        (λ o. (o.success, o.quarantine))
        (returned response.0)
      ≡ some (true, some (record_of system request disk.files)))
    × (lookup (codes "a.exe") response.1.store.files ≡ none)
    × (lookup (target system request) response.1.store.files ≡ some (isolated program))
    × Blocks processes system
        (driver 0)
        moment
        5
        reason
        []
        scorer
        none
        machine
        (codes "a.exe")
        connected
        response.1.store.kernel_bridge
unfolding suspend_process find_row lookup sentinel_antivirus.Prelude.text_beq format_pid_subject
    decimal sentinel_antivirus.Prelude.digits
quarantine_process-isolates_example =
    quarantine_process-isolates processes system (driver 0) moment 5 reason [] scorer none machine
      (codes "a.exe") score program driver-FindsNone refl refl refl (refl, refl, refl, refl, refl)
      refl refl refl refl

-- A subject with a start time is no number, so its process is not suspended.
abbrev signal : Signal
signal = record {
  kind = codes "canary_tripped";
  subject = codes "pid:5:9";
  weight = none;
  engine = [];
  timestamp = 0;
}

-- The program is put back by the user, and comes up in an event again.
abbrev away : Store (KernelBridge ℕ)
away = record {
  rows = taken ∷ [];
  files = (codes "/q/01_a.exe", isolated program) ∷ [];
  kernel_bridge = some connected;
}

abbrev back : Scene (List ℕ) ℕ
back = record {
  machine = record machine { store = (restore system (codes "01") [] 9 away).1 };
  alerts = [];
}

abbrev write_event : Event
write_event = event (codes "fs") (codes "file_write") 7 ((codes "path", text (codes "a.exe")) ∷ [])

away-IsIntact : IsIntact processes system (driver 0) (codes "01") taken (isolated program) away
unfolding find_row decision_beq lookup sentinel_antivirus.Prelude.text_beq
away-IsIntact = (refl, refl, refl, refl, refl, refl, refl, refl)

execute_response-restored_example :
    execute_response processes system
      (driver 0)
      plain_python
      moment
      (codes "file:a.exe")
      reason
      signal
      scorer
      (some write_event)
      back
    ≡ (none, back)
unfolding response_pid event_file restore sentinel_antivirus.Quarantine.get
    sentinel_antivirus.Quarantine.put_back sentinel_antivirus.Quarantine.unblock
    sentinel_antivirus.Quarantine.decide find_row decision_beq lookup insert
    sentinel_antivirus.Prelude.text_beq sentinel_antivirus.Prelude.starts_with
execute_response-restored_example =
    execute_response-restored processes system (driver 0) plain_python moment (codes "file:a.exe")
      reason signal scorer (some write_event) back (codes "01") [] 9 taken (isolated program) away
      away-IsIntact refl refl refl
