-- ===== src/Heuristics/Network.antt =====
-- sentinel/engine/heuristics_c2.py. Times are milliseconds. The jitter is computed without
-- rounding: with n intervals of sum S and sum of squares Q the squared coefficient of variation is
-- (n Q - S²) / S², which is compared with the square of the threshold, a fraction.
pub mod Beacon
pub mod Blocklist
use sentinel_antivirus.Prelude.{
  pair_eq, ℕ, ◌+◌, ◌-◌, ◌*◌, Bool, true, false, ◌&&◌, ◌||◌, not, Option, none, some, List, [], ◌∷◌,
  ◌++◌, map, ltb, leb, if◌then◌else◌, ◌==◌, nat_eq, length, is_empty, sum, Text, codes, text_eq,
  starts_with,
}
use sentinel_antivirus.Dict.{Dict, remove_if, lookup, insert, member}
use sentinel_antivirus.Result.{◌>>=◌, Result, ok}
use sentinel_antivirus.Builtins.{Python, to_int, truthy, field}
use sentinel_antivirus.Schema.{Event, Value, text, Extra}
use sentinel_antivirus.Scoring.Signals.{Signal, format_pid_subject}

pub record BeaconStream : Type 0 where
  pub timestamps : List ℕ
  pub last_signal_time : ℕ

-- `add_connection`, on a deque of at most 20
unfoldable pub push : List ℕ → ℕ → List ℕ
push [] t = t ∷ []
push (u ∷ ts) t = if leb 20 (length (u ∷ ts)) then ts ++ t ∷ [] else u ∷ ts ++ t ∷ []

-- `[ts[i] - ts[i - 1] for i in …]`, and of these the ones from 0.1 s to 900 s. A step back in time
-- reads as 0, which is left out as well.
unfoldable pub valid_intervals : List ℕ → List ℕ
valid_intervals [] = []
valid_intervals (t ∷ []) = []
valid_intervals (t ∷ u ∷ ts) =
    let rest = valid_intervals (u ∷ ts) in
    if leb 100 (u - t) && leb (u - t) 900000 then (u - t) ∷ rest else rest

abbrev pub squares : List ℕ → List ℕ
squares = map (λ d. d * d)

pub record Jitter : Type 0 where
  pub count : ℕ
  pub total : ℕ
  pub total_squares : ℕ

-- `calculate_jitter`
unfoldable pub calculate_jitter : List ℕ → Option Jitter
calculate_jitter ts =
    let valid = valid_intervals ts in
    if ltb (length ts) 4
    then none
    else if ltb (length valid) 3
    then none
    else if sum valid == 0
    then none
    else some
        (record { count = length valid; total = sum valid; total_squares = sum (squares valid) })

pub record BeaconDetector : Type 0 where
  -- `cv_threshold` as a fraction
  pub cv_num : ℕ
  pub cv_den : ℕ
  pub cooldown : ℕ
  pub streams : Dict (ℕ × Text) BeaconStream

-- `cv <= self.cv_threshold`
unfoldable pub is_periodic : ℕ → ℕ → Jitter → Bool
is_periodic num den j =
    leb (den * den * (j.count * j.total_squares - j.total * j.total))
      (num * num * (j.total * j.total))

abbrev pub beacon_signal : ℕ → ℕ → Signal
beacon_signal now pid = record {
  kind = codes "c2_beaconing";
  subject = format_pid_subject pid none;
  weight = some 40;
  engine = codes "heuristics_c2";
  timestamp = now;
}

abbrev pub local_ips : List Text
local_ips = codes "127.0.0.1" ∷ codes "::1" ∷ codes "0.0.0.0" ∷ []

-- A text in `extra`, if it is not empty. Sensors report addresses as texts.
unfoldable pub text_field : Text → Extra → Option Text
text_field key x = elim (field key x) [ text t ↦ if is_empty t then none else some t | _ ↦ none ]

-- `event.pid`, if it is neither absent nor 0
abbrev pub real_pid : Option ℕ → Option ℕ
real_pid none = none
real_pid (some pid) = if pid == 0 then none else some pid

abbrev pub new_stream : BeaconStream
new_stream = record { timestamps = []; last_signal_time = 0 }

unfoldable pub stream_of : ℕ × Text → Dict (ℕ × Text) BeaconStream → BeaconStream
stream_of key d = elim (lookup key d) [ none ↦ new_stream | some c ↦ c ]

-- The stream after a connection, and whether it is reported
unfoldable pub observe : ℕ → BeaconStream → BeaconDetector → BeaconStream × Bool
observe now c d =
    let c' : BeaconStream = record c { timestamps = push c.timestamps now } in
    if ltb now (c.last_signal_time + d.cooldown)
    then (c', false)
    else elim (calculate_jitter c'.timestamps) [
      | none ↦ (c', false)
      | some j ↦
          if is_periodic d.cv_num d.cv_den j
          then (record c' { last_signal_time = now }, true)
          else (c', false)
    ]

-- A connection of a process to a remote address
unfoldable pub connect : ℕ → ℕ → Text → BeaconDetector → BeaconDetector × Option Signal
connect now pid remote_ip d =
    let (c, periodic) = observe now (stream_of (pid, remote_ip) d.streams) d in
    (
      record d { streams = insert (pid, remote_ip) c d.streams },
      if periodic then some (beacon_signal now pid) else none,
    )

-- `process_connection`
unfoldable pub process_connection : ℕ → Event → BeaconDetector → BeaconDetector × Option Signal
process_connection now e d =
    if not (e.event_type == codes "connection") then (d, none) else elim (real_pid e.pid) [
      | none ↦ (d, none)
      | some pid ↦ elim (text_field (codes "remote_ip") e.extra) [
        | none ↦ (d, none)
        | some ip ↦ if member ip local_ips then (d, none) else connect now pid ip d
      ]
    ]

-- `C2BeaconDetector.reset_pid`
unfoldable pub reset_streams : ℕ → BeaconDetector → BeaconDetector
reset_streams pid d = record d { streams = remove_if (λ key _. key.0 == pid) d.streams }

pub record C2Blocklist : Type 0 where
  pub blocked_ips : List Text
  pub blocked_ports : List ℕ

-- `ip.startswith(("10.", "192.168.", "172.16."))`
unfoldable pub is_private : Text → Bool
is_private ip =
    starts_with ip (codes "10.")
    || starts_with ip (codes "192.168.")
    || starts_with ip (codes "172.16.")

-- `port and int(port) in self.blocked_ports and not …`
unfoldable pub is_blocked_port : Python → Value → Text → C2Blocklist → Result Bool
is_blocked_port py port ip b =
    if truthy port
    then (do p ← to_int py port; ok (member p b.blocked_ports && not (is_private ip)))
    else ok false

-- `C2Blocklist.check`, without the text of the reason
unfoldable pub check : Text → Option ℕ → C2Blocklist → Bool
check ip port b = if member ip b.blocked_ips then true else elim (real_pid port) [
  | none ↦ false
  | some p ↦ member p b.blocked_ports && not (is_private ip)
]

abbrev pub intel_signal : ℕ → ℕ → Signal
intel_signal now pid = record (beacon_signal now pid) {
  kind = codes "c2_threat_intel";
  weight = some 85;
}

abbrev when : Bool → Signal → Option Signal
when true g = some g
when false g = none

-- `check_connection`
unfoldable pub check_connection : Python → ℕ → Event → C2Blocklist → Result (Option Signal)
check_connection py now e b =
    if not (e.event_type == codes "connection") then ok none else elim (real_pid e.pid) [
      | none ↦ ok none
      | some pid ↦ elim (text_field (codes "remote_ip") e.extra) [
        | none ↦ ok none
        | some ip ↦ if member ip b.blocked_ips then ok (some (intel_signal now pid)) else do
          listed ← is_blocked_port py (field (codes "dest_port") e.extra) ip b
          ok (when listed (intel_signal now pid))
      ]
    ]
