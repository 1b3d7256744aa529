-- ===== src/Schema.antt =====
-- sentinel/engine/schema.py: the events that sensors publish and detectors read, and
-- `normalize` of sentinel/engine/event_bus.py, which builds them from what a sensor reports.
pub mod Laws
use sentinel_antivirus.Prelude.{
  ℕ, Bool, Option, none, some, List, [], ◌∷◌, if◌then◌else◌, Text, codes, text_eq,
}
use sentinel_antivirus.Dict.{Dict, insert, member}
use sentinel_antivirus.Result.{◌>>=◌, Result, ok, err, value_error, required}

-- A value of `extra`. `float n` is n ten-thousandths, as fine as the sensors round. No sensor
-- reports a negative number, and no detector reads a list or a dict in there.
pub data Value : Type 0 where
  null : Value
  bool : Bool → Value
  int float : ℕ → Value
  text : Text → Value

abbrev pub Extra : Type 0
Extra = Dict Text Value

abbrev pub sources : List Text
sources = codes "etw_process" ∷ codes "fs" ∷ codes "network" ∷ codes "eventlog" ∷ []

abbrev pub event_types : List Text
event_types =
    codes "process_create"
    ∷ codes "process_exit"
    ∷ codes "image_load"
    ∷ codes "registry_write"
    ∷ codes "file_write"
    ∷ codes "connection"
    ∷ codes "login_failed"
    ∷ codes "process_suspended"
    ∷ codes "file_quarantined"
    ∷ []

pub record Event : Type 0 where
  pub timestamp : Text
  pub source : Text
  pub event_type : Text
  pub pid : Option ℕ
  pub parent_pid : Option ℕ
  pub image_path : Option Text
  pub command_line : Option Text
  pub hash_sha256 : Option Text
  pub extra : Extra

-- `Event.__post_init__`: the constructor's checks. (`extra` is a dict by its type.)
unfoldable pub post_init : Event → Result Event
post_init e =
    if member e.source sources
    then (if member e.event_type event_types then ok e else err value_error)
    else err value_error

-- The dict that a sensor hands over: the nine known keys, absent or present, and the other keys.
pub record RawEvent : Type 0 where
  pub timestamp : Option Text
  pub source : Option Text
  pub event_type : Option Text
  pub pid : Option ℕ
  pub parent_pid : Option ℕ
  pub image_path : Option Text
  pub command_line : Option Text
  pub hash_sha256 : Option Text
  pub extra : Option Extra
  pub others : Extra

abbrev or_empty : Option Extra → Extra
or_empty none = []
or_empty (some x) = x

-- `Event.from_dict`: unknown keys are dropped, the three fields without a default are required.
unfoldable pub from_dict : RawEvent → Result Event
unfolding post_init
from_dict r = do
  t ← required r.timestamp
  s ← required r.source
  e ← required r.event_type
  post_init (record {
    timestamp = t;
    source = s;
    event_type = e;
    pid = r.pid;
    parent_pid = r.parent_pid;
    image_path = r.image_path;
    command_line = r.command_line;
    hash_sha256 = r.hash_sha256;
    extra = or_empty r.extra;
  })

-- `Event.to_dict`
unfoldable pub to_dict : Event → RawEvent
to_dict e = record {
  timestamp = some e.timestamp;
  source = some e.source;
  event_type = some e.event_type;
  pid = e.pid;
  parent_pid = e.parent_pid;
  image_path = e.image_path;
  command_line = e.command_line;
  hash_sha256 = e.hash_sha256;
  extra = some e.extra;
  others = [];
}

-- `a.update(b)`
unfoldable pub update : Extra → Extra → Extra
update a [] = a
update a ((k, v) ∷ b) = update (insert k v a) b

abbrev or_now : Text → Option Text → Text
or_now now none = now
or_now now (some t) = t

-- `normalize`: the time is filled in, and unknown keys go into `extra`. `now` is `utc_timestamp()`.
unfoldable pub normalize : Text → RawEvent → Result Event
unfolding from_dict
normalize now r = from_dict (record r {
  timestamp = some (or_now now r.timestamp);
  extra = some (update (or_empty r.extra) r.others);
  others = [];
})
