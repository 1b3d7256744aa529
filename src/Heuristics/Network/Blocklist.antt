-- ===== src/Heuristics/Network/Blocklist.antt =====
-- The two entry points of the blocklist agree.
use sentinel_antivirus.Prelude.{
  ℕ, ◌<◌, ◌≡◌, none, some, arith, if◌then◌else◌, nat_eq, pair_eq, Text, codes, text_beq_iff,
  text_eq,
}
use sentinel_antivirus.Result.{ok}
use sentinel_antivirus.Builtins.{Python, to_int, truthy, field}
use sentinel_antivirus.Schema.{Event, int}
use sentinel_antivirus.Heuristics.Network.{
  C2Blocklist, text_field, is_blocked_port, check, check_connection, intel_signal,
}

-- A connection of a process to an address, with a number for its port, is reported exactly when
-- `check` finds the address and the port on the blocklist.
pub check_connection-eq-check :
    (py : Python) (now pid port : ℕ) (ip : Text) (e : Event) (b : C2Blocklist)
    → e.event_type ≡ codes "connection"
    → e.pid ≡ some pid
    → 0 < pid
    → text_field (codes "remote_ip") e.extra ≡ some ip
    → field (codes "dest_port") e.extra ≡ int port
    → check_connection py now e b
      ≡ ok (if check ip (some port) b then some (intel_signal now pid) else none)
unfolding check_connection check is_blocked_port truthy to_int
check_connection-eq-check py now pid port ip e b ty p pos i d =
    ground (arith, text_beq_iff e.event_type (codes "connection"))
