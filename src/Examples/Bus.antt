-- ===== src/Examples/Bus.antt =====
-- The bus with a queue of two.
use sentinel_antivirus.Prelude.{List, [], ◌∷◌, ◌++◌, nat_eq, pair_eq, codes, text_eq}
use mathlib.Core.List.{Sublist}
use sentinel_antivirus.Schema.{Event}
use sentinel_antivirus.Bus.{EventBus, single}
use sentinel_antivirus.Bus.Order.{pending}
use sentinel_antivirus.Bus.Runs.{Action, publishes, consumes, flushes, run, published, run-Sublist}
use sentinel_antivirus.Examples.{event}

abbrev write : Event
write = event (codes "fs") (codes "file_write") 5 []

abbrev image_load : Event
image_load = event (codes "etw_process") (codes "image_load") 5 []

abbrev full_bus : EventBus
full_bus = record {
  rows = [];
  queue = single write ∷ single image_load ∷ [];
  queue_size = 2;
  high_volume_batch = 10;
  batch = [];
}

abbrev calls : List Action
calls = publishes write ∷ consumes ∷ publishes image_load ∷ flushes ∷ []

run-Sublist_example :
    Sublist
      ((run calls full_bus).1 ++ pending (run calls full_bus).0)
      (pending full_bus ++ published calls)
run-Sublist_example = run-Sublist calls full_bus
