-- ===== src/Heuristics/Mining.antt =====
-- sentinel/engine/heuristics_cryptomining.py. psutil's readings are given: for each pid, nothing,
-- an error, or a percentage. The cache of psutil's process objects is left out.
pub mod Laws
use sentinel_antivirus.Prelude.{
  text_eq, ℕ, ◌+◌, ◌*◌, Bool, true, false, ◌&&◌, not, Option, none, some, List, [], ◌∷◌, ◌++◌, ltb,
  leb, if◌then◌else◌, ◌==◌, nat_eq, keep, all_of, codes,
}
use sentinel_antivirus.Dict.{Dict, lookup, insert, member, add, discard}
use sentinel_antivirus.Result.{◌>>=◌, Result, ok}
use Prim.Native.String.{String}
use sentinel_antivirus.Builtins.{Python, to_int, field}
use sentinel_antivirus.Schema.{Event, Value, null}
use sentinel_antivirus.Scoring.Signals.{Signal, new_signal, format_pid_subject}

-- `CpuWindow`: times and percentages, oldest first
abbrev pub CpuWindow : Type 0
CpuWindow = List (ℕ × ℕ)

-- `t >= now - age`
abbrev pub is_within : ℕ → ℕ → ℕ × ℕ → Bool
is_within age now sample = leb now (sample.0 + age)

-- `CpuWindow.add`
unfoldable pub add_sample : ℕ → ℕ → ℕ → CpuWindow → CpuWindow
add_sample now percent max_age w = keep (is_within max_age now) (w ++ (now, percent) ∷ [])

-- The tests of `sustained_above` on the samples of the window: `window[0][0] > cutoff + seconds /
-- 4`
unfoldable pub spans : ℕ → ℕ → ℕ → CpuWindow → Bool
spans threshold seconds now [] = false
spans threshold seconds now (sample ∷ w) =
    if ltb (4 * now + seconds) (4 * (sample.0 + seconds))
    then false
    else all_of (λ p. leb threshold p.1) (sample ∷ w)

-- `CpuWindow.sustained_above`
unfoldable pub sustained_above : ℕ → ℕ → ℕ → CpuWindow → Bool
unfolding spans
sustained_above threshold seconds now w =
    spans threshold seconds now (keep (is_within seconds now) w)

pub record Mining : Type 0 where
  pub cpu_percent : ℕ
  pub cpu_seconds : ℕ
  pub stratum_ports : List ℕ
  pub cpu_windows : Dict ℕ CpuWindow
  pub emitted_cpu : List ℕ
  pub emitted_stratum : List ℕ

pub data Reading : Type 0 where
  unavailable vanished : Reading
  percent : ℕ → Reading

unfoldable pub window_of : ℕ → Dict ℕ CpuWindow → CpuWindow
window_of pid d = elim (lookup pid d) [ none ↦ [] | some w ↦ w ]

abbrev pub mining_signal : String → ℕ → ℕ → Signal
mining_signal kind now pid =
    new_signal now (codes kind) (format_pid_subject pid none) (codes "cryptomining_heuristic")

-- The loop body of `sample_cpu`
unfoldable pub sample_pid : ℕ → ℕ → Reading → Mining → Mining × List Signal
sample_pid now pid (percent pct) s =
    let w = add_sample now pct (s.cpu_seconds * 2) (window_of pid s.cpu_windows) in
    let s' : Mining = record s { cpu_windows = insert pid w s.cpu_windows } in
    if member pid s.emitted_cpu
    then (s', [])
    else if sustained_above s.cpu_percent s.cpu_seconds now w
    then (
      record s' { emitted_cpu = add pid s.emitted_cpu },
      mining_signal "cpu_sustained" now pid ∷ [],
    )
    else (s', [])
sample_pid now pid _ s = (s, [])

-- `sample_cpu`, over the readings of `psutil.pids()`
unfoldable pub sample_cpu : ℕ → List (ℕ × Reading) → Mining → Mining × List Signal
sample_cpu now [] s = (s, [])
sample_cpu now ((pid, r) ∷ rs) s =
    let (s', found) = sample_pid now pid r s in
    let (s'', more) = sample_cpu now rs s' in (s'', found ++ more)

unfoldable pub clear_cpu_flag : ℕ → Mining → Mining
clear_cpu_flag pid s = record s { emitted_cpu = discard pid s.emitted_cpu }

unfoldable pub clear_stratum_flag : ℕ → Mining → Mining
clear_stratum_flag pid s = record s { emitted_stratum = discard pid s.emitted_stratum }

abbrev is_null : Value → Bool
is_null null = true
is_null _ = false

-- A connection of a process to a port
unfoldable pub stratum_check : ℕ → ℕ → ℕ → Mining → Mining × Option Signal
stratum_check now pid port s =
    if member port s.stratum_ports && not (member pid s.emitted_stratum)
    then (
      record s { emitted_stratum = add pid s.emitted_stratum },
      some (mining_signal "stratum_network" now pid),
    )
    else (s, none)

-- `check_network_event`; `int(dest_port)` may raise.
unfoldable pub check_network_event : Python → ℕ → Event → Mining → Result (Mining × Option Signal)
check_network_event py now e s =
    let dest_port = field (codes "dest_port") e.extra in
    if not (e.event_type == codes "connection") then ok (s, none) else elim e.pid [
      | none ↦ ok (s, none)
      | some pid ↦
          if is_null dest_port
          then ok (s, none)
          else do port ← to_int py dest_port; ok (stratum_check now pid port s)
    ]
