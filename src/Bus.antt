-- ===== src/Bus.antt =====
-- sentinel/engine/event_bus.py: the table of events and the queue of deliveries. Each method holds
-- the bus's lock, so it is one step. Sqlite's table is the list of its rows, the newest last.
pub mod Order
pub mod Runs
use sentinel_antivirus.Prelude.{
  ℕ, zero, suc, ◌+◌, Bool, ◌&&◌, Option, none, some, List, [], ◌∷◌, ◌++◌, ltb, leb, if◌then◌else◌,
  length, is_empty, Text, codes, text_eq,
}
use sentinel_antivirus.Dict.{member}
use mathlib.Core.List.{reverse}
use sentinel_antivirus.Schema.{Event}

-- What the queue holds: an event, or a batch of high-volume events.
pub data Item : Type 0 where
  single : Event → Item
  batched : List Event → Item

pub record EventBus : Type 0 where
  pub rows : List Event
  pub queue : List Item
  pub queue_size : ℕ
  pub high_volume_batch : ℕ
  pub batch : List Event

abbrev pub high_volume_types : List Text
high_volume_types = codes "registry_write" ∷ codes "image_load" ∷ []

-- `_persist`: the rowid is the row's number.
unfoldable pub persist : Event → EventBus → EventBus × ℕ
persist e b = (record b { rows = b.rows ++ e ∷ [] }, length b.rows + 1)

-- `queue.Queue.full`: a size of 0 is no limit.
abbrev pub is_full : EventBus → Bool
is_full b = ltb 0 b.queue_size && leb b.queue_size (length b.queue)

-- `queue.Queue.get_nowait`, whose item is dropped
abbrev pub drop_oldest : List Item → List Item
drop_oldest [] = []
drop_oldest (i ∷ q) = q

-- `_put`: a full queue loses its oldest item.
unfoldable pub put : Item → EventBus → EventBus
put item b = record b { queue = (if is_full b then drop_oldest b.queue else b.queue) ++ item ∷ [] }

-- `_flush_batch`
unfoldable pub flush_batch : EventBus → EventBus
unfolding put
flush_batch b = if is_empty b.batch then b else put (batched b.batch) (record b { batch = [] })

-- `_enqueue`
unfoldable pub enqueue : Event → EventBus → EventBus
enqueue e b =
    if member e.event_type high_volume_types
    then (let b' = record b { batch = b.batch ++ e ∷ [] } in
        if leb b.high_volume_batch (length b'.batch) then flush_batch b' else b')
    else put (single e) (if is_empty b.batch then b else flush_batch b)

-- `publish`, with the rowid that it returns
unfoldable pub publish : Event → EventBus → EventBus × ℕ
unfolding persist
publish e b = let (b', rowid) = persist e b in (enqueue e b', rowid)

abbrev enqueue_all : List Event → EventBus → EventBus
enqueue_all [] b = b
enqueue_all (e ∷ es) b = enqueue_all es (enqueue e b)

-- `publish_many`: the list of rowids that it returns is always empty.
unfoldable pub publish_many : List Event → EventBus → EventBus × List ℕ
publish_many es b = (enqueue_all es (record b { rows = b.rows ++ es }), [])

-- `consume`: the item, or `none` on a timeout
unfoldable pub consume : EventBus → Option Item × EventBus
consume b = elim b.queue [ [] ↦ (none, b) | i ∷ q ↦ (some i, record b { queue = q }) ]

-- `flush`
abbrev pub flush : EventBus → EventBus
flush = flush_batch

-- `count()` with no condition, and `recent(limit)`: the newest rows first
unfoldable pub count : EventBus → ℕ
count b = length b.rows

abbrev pub first_rows : ℕ → List Event → List Event
first_rows zero es = []
first_rows (suc n) [] = []
first_rows (suc n) (e ∷ es) = e ∷ first_rows n es

unfoldable pub recent : ℕ → EventBus → List Event
recent limit b = first_rows limit (reverse b.rows)
