-- ===== src/Heuristics/Ransomware.antt =====
-- sentinel/engine/heuristics_ransomware.py. A call that raises keeps what it had stored before.
pub mod Laws
use sentinel_antivirus.Prelude.{
  ℕ, ◌*◌, Bool, false, ◌&&◌, ◌||◌, not, Option, none, some, List, [], ◌∷◌, ◌++◌, leb, if◌then◌else◌,
  ◌==◌, nat_eq, length, is_empty, Text, codes, text_eq,
}
use sentinel_antivirus.Dict.{Dict, insert, member, add, discard}
use sentinel_antivirus.Result.{◌>>=◌, Result, ok, err}
use sentinel_antivirus.Builtins.{Python, to_text, to_float, truthy, field}
use sentinel_antivirus.Schema.{Event, Value, null, Extra}
use sentinel_antivirus.Scoring.Signals.{Signal, new_signal, format_pid_subject}
use sentinel_antivirus.Heuristics.Window.{slide, count_recent}
use sentinel_antivirus.Heuristics.BruteForce.{deque_of}

-- `_RATE_WINDOW_SECONDS`, in milliseconds
abbrev pub rate_window : ℕ
rate_window = 60000

-- Rates per minute and entropies in ten-thousandths
pub record Ransomware : Type 0 where
  pub write_rate : ℕ
  pub entropy_alert : ℕ
  pub writes : Dict Text (List ℕ)
  pub emitted_rate : List Text
  pub emitted_entropy : List Text

-- The canary manager at the time of a call: what `is_canary` and `check_tampering` say of a path.
pub record Traps : Type 0 where
  pub is_canary : Text → Bool
  pub tampered : Text → Bool

-- The folder, or a name for an unknown one
unfoldable pub folder_of : Python → Extra → Text
folder_of py x =
    let root = field (codes "watched_root") x in
    if truthy root then to_text py root else codes "unknown_folder"

-- `_scope_of`
unfoldable pub scope_of : Python → Event → Text
scope_of py e = elim e.pid [
  | some pid ↦ format_pid_subject pid none
  | none ↦ codes "folder:" ++ folder_of py e.extra
]

-- `event.image_path or "unknown"`
unfoldable pub path_of : Event → Text
path_of e = elim e.image_path [
  | none ↦ codes "unknown"
  | some p ↦ if is_empty p then codes "unknown" else p
]

abbrev pub is_tripped : Option Traps → Text → Bool
is_tripped none path = false
is_tripped (some t) path = t.is_canary path && t.tampered path

abbrev pub ransomware_engine : Text
ransomware_engine = codes "ransomware_heuristic"

-- A high entropy is reported once for each path.
unfoldable pub entropy_alarm : ℕ → Text → Text → ℕ → Ransomware → Ransomware × List Signal
entropy_alarm now scope path entropy s =
    if leb s.entropy_alert entropy && not (member path s.emitted_entropy)
    then (
      record s { emitted_entropy = add path s.emitted_entropy },
      new_signal now (codes "entropy_spike") scope ransomware_engine ∷ [],
    )
    else (s, [])

-- `entropy is not None and float(entropy) >= …`
unfoldable pub entropy_step :
    Python → ℕ → Text → Text → Value → Ransomware → Result (Ransomware × List Signal)
entropy_step py now scope path null s = ok (s, [])
entropy_step py now scope path v s = do x ← to_float py v; ok (entropy_alarm now scope path x s)

-- The rate is reported once for each scope.
unfoldable pub rate_step : ℕ → Text → Ransomware → Ransomware × List Signal
rate_step now scope s =
    if leb s.write_rate (length (deque_of scope s.writes) * 10000)
      && not (member scope s.emitted_rate)
    then (
      record s { emitted_rate = add scope s.emitted_rate },
      new_signal now (codes "mass_modification") scope ransomware_engine ∷ [],
    )
    else (s, [])

-- `dq.append(now)` and the pops
unfoldable pub note_write : ℕ → Text → Ransomware → Ransomware
note_write now scope s = record s {
  writes = insert scope (slide rate_window now (deque_of scope s.writes)) s.writes;
}

abbrev then_rate :
    ℕ → Text → Ransomware → Result (Ransomware × List Signal) → Ransomware × Result (List Signal)
then_rate now scope s (err x) = (s, err x)
then_rate now scope s (ok (s', found)) =
    let (s'', more) = rate_step now scope s' in (s'', ok (found ++ more))

-- `process_fs_event`
unfoldable pub process_fs_event :
    Python → Option Traps → ℕ → Event → Ransomware → Ransomware × Result (List Signal)
process_fs_event py traps now e s =
    let scope = scope_of py e in
    let path = path_of e in
    let s' = note_write now scope s in
    if not (e.event_type == codes "file_write") || not (e.source == codes "fs")
    then (s, ok [])
    else if is_tripped traps path
    then (s, ok (new_signal now (codes "canary_tripped") scope (codes "ransomware_canary") ∷ []))
    else then_rate now scope s'
        (entropy_step py now scope path (field (codes "entropy") e.extra) s')

unfoldable pub clear_scope_flag : Text → Ransomware → Ransomware
clear_scope_flag scope s = record s { emitted_rate = discard scope s.emitted_rate }

-- Writes per minute: the window is one minute.
unfoldable pub current_rate : ℕ → Text → Ransomware → ℕ
current_rate now scope s = count_recent rate_window now (deque_of scope s.writes)
