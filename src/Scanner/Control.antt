-- ===== src/Scanner/Control.antt =====
-- The status and the two events of `OnDemandScanner` of sentinel/engine/scanner.py. Each method
-- holds the lock.
use sentinel_antivirus.Prelude.{Bool, true, false, if◌then◌else◌, nat_eq, pair_eq, text_eq}
use sentinel_antivirus.Result.{Result, ok, err, runtime_error}

pub data ScanStatus : Type 0 where
  idle scanning paused completed cancelled error : ScanStatus

-- `_status`, and whether `_cancel_event` and `_pause_event` are set
pub record Control : Type 0 where
  pub status : ScanStatus
  pub is_cancelled : Bool
  pub is_unpaused : Bool

-- `__init__`
abbrev pub new_control : Control
new_control = record { status = idle; is_cancelled = false; is_unpaused = true }

abbrev pub is_scanning : ScanStatus → Bool
is_scanning scanning = true
is_scanning _ = false

abbrev pub is_paused : ScanStatus → Bool
is_paused paused = true
is_paused _ = false

-- `cancel`
unfoldable pub cancel : Control → Control
cancel c = record c { is_cancelled = true; is_unpaused = true }

-- `pause`
unfoldable pub pause : Control → Control
pause c = if is_scanning c.status then record c { status = paused; is_unpaused = false } else c

-- `resume`
unfoldable pub resume : Control → Control
resume c = if is_paused c.status then record c { status = scanning; is_unpaused = true } else c

-- The start of `execute_scan`
unfoldable pub begin : Control → Result Control
begin c =
    if is_scanning c.status
    then err runtime_error
    else ok (record { status = scanning; is_cancelled = false; is_unpaused = true })

-- The end of `execute_scan`: the status that a scan has, if it was not cancelled
unfoldable pub final_status : ScanStatus → Control → ScanStatus
final_status status c = if c.is_cancelled then cancelled else status
