-- ===== src/Bus/Order.antt =====
-- What a consumer of the bus sees of what was published.
use mathlib.Core.List.{append_assoc, append-nil}
use sentinel_antivirus.Prelude.{
  ◌+◌, ◌≤◌, ◌<◌, ◌≡◌, refl, sym, ap, ◌∙◌, inl, inr, List, [], ◌∷◌, ◌++◌, arith, leb, if◌then◌else◌,
  nat_eq, pair_eq, Bool-cases, length, length-append, is_empty, text_eq,
}
use sentinel_antivirus.Schema.{Event}
use sentinel_antivirus.Bus.{
  high_volume_types, member, Item, single, batched, EventBus, is_full, drop_oldest, put,
  flush_batch, enqueue, publish,
}
use sentinel_antivirus.Dict.{}

abbrev pub item_events : Item → List Event
item_events (single e) = e ∷ []
item_events (batched es) = es

abbrev pub queue_events : List Item → List Event
queue_events [] = []
queue_events (i ∷ q) = item_events i ++ queue_events q

-- The events that are still to be delivered, in order.
abbrev pub pending : EventBus → List Event
pending b = queue_events b.queue ++ b.batch

queue_events-append :
    (q : List Item) (i : Item) → queue_events (q ++ i ∷ []) ≡ queue_events q ++ item_events i
queue_events-append [] i = append-nil (item_events i)
queue_events-append (j ∷ q) i = rw (queue_events-append q i, append_assoc)

-- The queue never grows past its size.
abbrev pub IsBounded : EventBus → Type 0
IsBounded b = (length b.queue ≤ b.queue_size) × (0 < b.queue_size)

drop_oldest-length : (q : List Item) → 0 < length q → length (drop_oldest q) + 1 ≡ length q
drop_oldest-length [] h = elim h [ ]
drop_oldest-length (i ∷ q) h = omega arith

put-IsBounded : (i : Item) (b : EventBus) → IsBounded b → IsBounded (put i b)
unfolding put
put-IsBounded i b h = ground (
  arith,
  drop_oldest-length b.queue,
  length-append b.queue (i ∷ []),
  length-append (drop_oldest b.queue) (i ∷ []),
)

flush_batch-IsBounded : (b : EventBus) → IsBounded b → IsBounded (flush_batch b)
unfolding flush_batch
flush_batch-IsBounded b h =
    ground (arith, put-IsBounded (batched b.batch) (record b { batch = [] }) h)

enqueue-IsBounded : (e : Event) (b : EventBus) → IsBounded b → IsBounded (enqueue e b)
unfolding enqueue
enqueue-IsBounded e b h = ground (
  arith,
  flush_batch-IsBounded (record b { batch = b.batch ++ e ∷ [] }) h,
  flush_batch-IsBounded b h,
  put-IsBounded (single e) b h,
  put-IsBounded (single e) (flush_batch b),
)

-- `after` is what is left of `before` when a first part of it is dropped.
abbrev pub DropsTo : List Event → List Event → Type 0
DropsTo before after = (dropped : List Event) × (dropped ++ after ≡ before)

drop_oldest-DropsTo :
    (q : List Item) (i : Item)
    → DropsTo (queue_events q ++ item_events i) (queue_events (drop_oldest q ++ i ∷ []))
drop_oldest-DropsTo [] i = ([], append-nil (item_events i))
drop_oldest-DropsTo (j ∷ q) i = (item_events j, rw (queue_events-append q i, append_assoc))

put-DropsTo :
    (i : Item) (b : EventBus)
    → DropsTo (queue_events b.queue ++ item_events i) (queue_events (put i b).queue)
unfolding put
put-DropsTo i b = elim (Bool-cases (is_full b)) [
  | inl full ↦ rw full (drop_oldest-DropsTo b.queue i)
  | inr free ↦ rw free ([], queue_events-append b.queue i)
]

pub flush_batch-DropsTo : (b : EventBus) → DropsTo (pending b) (pending (flush_batch b))
unfolding flush_batch
flush_batch-DropsTo b = elim (Bool-cases (is_empty b.batch)) [
  | inl nothing ↦ rw (nothing, flush_batch) ([], refl)
  | inr some_batch ↦
      let (dropped, e) = put-DropsTo (batched b.batch) (record b { batch = [] }) in
      rw (some_batch, flush_batch)
        (
          dropped,
          rw (append-nil (queue_events (put (batched b.batch) (record b { batch = [] })).queue)) e,
        )
]

pub DropsTo-trans : {xs ys zs : List Event} → DropsTo xs ys → DropsTo ys zs → DropsTo xs zs
DropsTo-trans (d, e) (d', e') = (d ++ d', append_assoc d d' _ ∙ ap (λ l. d ++ l) e' ∙ e)

pub DropsTo-append :
    {xs ys : List Event} (zs : List Event) → DropsTo xs ys → DropsTo (xs ++ zs) (ys ++ zs)
DropsTo-append zs (d, e) = (d, sym (append_assoc d _ zs) ∙ ap (λ l. l ++ zs) e)

flush_batch-batch : (b : EventBus) → (flush_batch b).batch ≡ []
unfolding flush_batch
flush_batch-batch b = ground arith

flush_if_needed : (b : EventBus) → (if is_empty b.batch then b else flush_batch b) ≡ flush_batch b
unfolding flush_batch
flush_if_needed b = elim (Bool-cases (is_empty b.batch)) [
  | inl e ↦ rw (e, flush_batch)
  | inr e ↦ rw (e, flush_batch)
]

put-batch : (i : Item) (b : EventBus) → (put i b).batch ≡ b.batch
unfolding put
put-batch i b = refl

-- A single event goes behind an empty batch.
put-single-DropsTo :
    (e : Event) (b : EventBus)
    → b.batch ≡ []
    → DropsTo (pending b ++ e ∷ []) (pending (put (single e) b))
put-single-DropsTo e b none_batched =
    let (d, q) = put-DropsTo (single e) b in
    (d, simp (put-batch (single e) b, none_batched, append-nil) q)

pub enqueue-DropsTo :
    (e : Event) (b : EventBus) → DropsTo (pending b ++ e ∷ []) (pending (enqueue e b))
unfolding enqueue
enqueue-DropsTo e b = elim (Bool-cases (member e.event_type high_volume_types)) [
  | inr plain ↦
      rw (plain, enqueue)
        (rw (flush_if_needed b) (
          DropsTo-trans (DropsTo-append (e ∷ []) (flush_batch-DropsTo b))
            (put-single-DropsTo e (flush_batch b) (flush_batch-batch b))))
  | inl high ↦
      let b' : EventBus = record b { batch = b.batch ++ e ∷ [] } in
      let kept : pending b' ≡ pending b ++ e ∷ [] =
        sym (append_assoc (queue_events b.queue) b.batch (e ∷ [])) in
      elim (Bool-cases (leb b.high_volume_batch (length b'.batch))) [
        | inl reached ↦ rw (high, reached, enqueue) (rw (← kept) (flush_batch-DropsTo b'))
        | inr below ↦ rw (high, below, enqueue) ([], kept)
      ]
]

rows-put : (i : Item) (b : EventBus) → (put i b).rows ≡ b.rows
unfolding put
rows-put i b = refl

rows-flush_batch : (b : EventBus) → (flush_batch b).rows ≡ b.rows
unfolding flush_batch
rows-flush_batch b = ground arith

rows-enqueue : (e : Event) (b : EventBus) → (enqueue e b).rows ≡ b.rows
unfolding enqueue
rows-enqueue e b = ground (
  arith,
  rows-flush_batch b,
  rows-flush_batch (record b { batch = b.batch ++ e ∷ [] }),
  rows-put (single e) b,
  rows-put (single e) (flush_batch b),
)

-- On a bus within its size `publish` stores the event as the last row, whatever the queue does.
-- What is pending afterwards is what was pending before and then the event, less a first part: the
-- oldest are dropped, never the new event's place in the order. The queue stays within its size.
pub publish_lem :
    (e : Event) (b : EventBus)
    → IsBounded b
    → ((publish e b).0.rows ≡ b.rows ++ e ∷ [])
      × DropsTo (pending b ++ e ∷ []) (pending (publish e b).0)
      × IsBounded (publish e b).0
unfolding publish
publish_lem e b h = (
  rows-enqueue e _,
  enqueue-DropsTo e (record b { rows = b.rows ++ e ∷ [] }),
  enqueue-IsBounded e (record b { rows = b.rows ++ e ∷ [] }) h,
)
