-- ===== src/Bus/Runs.antt =====
-- The calls of sensors and consumers to the bus, in any order.
use mathlib.Core.List.{append_assoc, append-nil, Sublist, sublist-append_right}
use mathlib.Core.List.Sublist
use mathlib.Core.Path.{subst}
use sentinel_antivirus.Prelude.{
  ◌≡◌, refl, sym, ◌∙◌, Option, none, some, List, [], ◌∷◌, ◌++◌, nat_eq, pair_eq, text_eq,
}
use sentinel_antivirus.Schema.{Event}
use sentinel_antivirus.Bus.{
  Item, EventBus, enqueue, publish, publish_many, enqueue_all, consume, flush,
}
use sentinel_antivirus.Bus.Order.{
  item_events, queue_events, pending, DropsTo, DropsTo-append, enqueue-DropsTo, DropsTo-trans,
  flush_batch-DropsTo,
}

-- What sensors and consumers do to the bus.
pub data Action : Type 0 where
  publishes : Event → Action
  publishes_many : List Event → Action
  consumes flushes : Action

abbrev pub delivered : Option Item → List Event
delivered none = []
delivered (some i) = item_events i

-- The bus after an action, and the events that it handed to a consumer.
unfoldable pub act : Action → EventBus → EventBus × List Event
act (publishes e) b = ((publish e b).0, [])
act (publishes_many es) b = ((publish_many es b).0, [])
act consumes b = let (item, b') = consume b in (b', delivered item)
act flushes b = (flush b, [])

unfoldable pub run : List Action → EventBus → EventBus × List Event
unfolding act
run [] b = (b, [])
run (a ∷ rest) b = let (b', got) = act a b in let (b'', more) = run rest b' in (b'', got ++ more)

abbrev pub published_by : Action → List Event
published_by (publishes e) = e ∷ []
published_by (publishes_many es) = es
published_by _ = []

abbrev pub published : List Action → List Event
published [] = []
published (a ∷ rest) = published_by a ++ published rest

enqueue_all-DropsTo :
    (es : List Event) (b : EventBus) → DropsTo (pending b ++ es) (pending (enqueue_all es b))
enqueue_all-DropsTo [] b = ([], sym (append-nil (pending b)))
enqueue_all-DropsTo (e ∷ es) b =
    DropsTo-trans
      (let (d, q) = DropsTo-append es (enqueue-DropsTo e b) in
        (d, q ∙ append_assoc (pending b) (e ∷ []) es))
      (enqueue_all-DropsTo es (enqueue e b))

consume_from :
    (q : List Item) (b : EventBus)
    → delivered (consume (record b { queue = q })).0 ++ pending (consume (record b { queue = q })).1
      ≡ queue_events q ++ b.batch
unfolding consume
consume_from [] b = refl
consume_from (i ∷ q) b = sym (append_assoc (item_events i) (queue_events q) b.batch)

consume_lem : (b : EventBus) → delivered (consume b).0 ++ pending (consume b).1 ≡ pending b
consume_lem b = consume_from b.queue b

DropsTo-Sublist : {xs ys : List Event} → DropsTo xs ys → Sublist ys xs
DropsTo-Sublist {xs} {ys} (d, e) = subst (λ l. Sublist ys l) e (sublist-append_right d ys)

-- One action: what it delivers and what is then pending are a part of what was pending and what it
-- published, in order.
act-Sublist :
    (a : Action) (b : EventBus)
    → Sublist ((act a b).1 ++ pending (act a b).0) (pending b ++ published_by a)
unfolding act publish publish_many
act-Sublist (publishes e) b =
    DropsTo-Sublist (enqueue-DropsTo e (record b { rows = b.rows ++ e ∷ [] }))
act-Sublist (publishes_many es) b =
    DropsTo-Sublist (enqueue_all-DropsTo es (record b { rows = b.rows ++ es }))
act-Sublist consumes b = rw (consume_lem b, append-nil) (Sublist.refl (pending b))
act-Sublist flushes b = rw append-nil (DropsTo-Sublist (flush_batch-DropsTo b))

-- Over any sequence of calls by any threads: the events that consumers were given, with those still
-- pending, are a part of the events that were pending and published, in the order in which they
-- were published and each at most once.
pub run-Sublist :
    (rest : List Action) (b : EventBus)
    → Sublist ((run rest b).1 ++ pending (run rest b).0) (pending b ++ published rest)
unfolding run
run-Sublist [] b = rw append-nil (Sublist.refl (pending b))
run-Sublist (a ∷ rest) b =
    let (b', got) = act a b in
    let (b'', more) = run rest b' in
    rw (append_assoc got more (pending b'')) (
      rw (← append_assoc (pending b) (published_by a) (published rest)) (
        Sublist.trans (Sublist.append (Sublist.refl got) (run-Sublist rest b')) (
          rw (← append_assoc got (pending b') (published rest))
            (Sublist.append (act-Sublist a b) (Sublist.refl (published rest))))))
