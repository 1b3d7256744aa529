-- ===== src/Watchdog.antt =====
-- sentinel/watchdog_svc.py: the polls that look for the core service, and its restarts.
pub mod Restarts
use sentinel_antivirus.Prelude.{
  ℕ, ◌+◌, Bool, true, ◌||◌, Option, none, some, List, [], ◌∷◌, ltb, if◌then◌else◌, is_empty, Text,
  text_eq,
}
use sentinel_antivirus.Builtins.{Python}

-- `_RESTART_COOLDOWN`, in milliseconds
abbrev pub restart_cooldown : ℕ
restart_cooldown = 30000

-- `_read_pid`, from the file's text; a file that is missing or cannot be read has none.
unfoldable pub read_pid : Python → Option Text → Option ℕ
read_pid py none = none
read_pid py (some t) = if is_empty (py.strip t) then none else py.parse_int (py.strip t)

-- What one poll finds: the time, the pid file, whether the system knows that process, whether the
-- service manager has the service running, and whether it would restart it.
pub record Poll : Type 0 where
  pub now : ℕ
  pub pid : Option ℕ
  pub pid_alive : Bool
  pub service_running : Bool
  pub restart_works : Bool

-- `Watchdog`; its `_running` is true as long as there are polls.
pub record Watchdog : Type 0 where
  pub last_restart : ℕ

-- `_check_alive`
unfoldable pub check_alive : Poll → Bool
check_alive p = elim p.pid [ none ↦ true | some pid ↦ p.pid_alive || p.service_running ]

-- What a poll did: nothing, or a notification with a restart that failed or worked at that time
pub data Outcome : Type 0 where
  quiet : Outcome
  failed restarted : ℕ → Outcome

-- `_handle_death`
unfoldable pub handle_death : Poll → Watchdog → Watchdog × Outcome
handle_death p w =
    if ltb p.now (w.last_restart + restart_cooldown)
    then (w, quiet)
    else if p.restart_works
    then (record w { last_restart = p.now }, restarted p.now)
    else (w, failed p.now)

-- One round of the loop of `start`
unfoldable pub poll : Poll → Watchdog → Watchdog × Outcome
poll p w = if check_alive p then (w, quiet) else handle_death p w

-- `start`, over the polls until `stop`
unfoldable pub start : List Poll → Watchdog → Watchdog × List Outcome
start [] w = (w, [])
start (p ∷ ps) w =
    let (w', outcome) = poll p w in let (w'', more) = start ps w' in (w'', outcome ∷ more)
