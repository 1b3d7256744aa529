-- ===== src/Schema/Laws.antt =====
-- What the constructor, `from_dict` and `normalize` promise.
use sentinel_antivirus.Prelude.{
  ◌≡◌, refl, true, Option, none, some, [], ◌∷◌, arith, nat_eq, pair_eq, Text, text_beq_iff, text_eq,
}
use sentinel_antivirus.Dict.{lookup, insert, member, lookup-insert}
use sentinel_antivirus.Result.{ok}
use sentinel_antivirus.Schema.{
  Value, Extra, Event, RawEvent, sources, event_types, post_init, from_dict, to_dict, update,
  or_empty, normalize,
}

-- The event passes the constructor's checks.
abbrev pub IsValid : Event → Type 0
IsValid e = (member e.source sources ≡ true) × (member e.event_type event_types ≡ true)

-- A dict holds each key once.
abbrev pub IsDict : Extra → Type 0
IsDict [] = Unit
IsDict ((k, v) ∷ d) = (lookup k d ≡ none) × IsDict d

abbrev pub or_else : Option Value → Option Value → Option Value
or_else (some v) o = some v
or_else none o = o

pub lookup-update :
    (k : Text) (a b : Extra) → IsDict b → lookup k (update a b) ≡ or_else (lookup k b) (lookup k a)
unfolding update lookup
lookup-update k a [] h = refl
lookup-update k a ((j, v) ∷ b) h =
    ground (arith, text_beq_iff j k, lookup-insert j k v a, lookup-update k (insert j v a) b h.1)

-- Every event that `from_dict` accepts has one of the known sources and one of the known types.
pub from_dict-IsValid : (r : RawEvent) {e : Event} → from_dict r ≡ ok e → IsValid e
unfolding from_dict
from_dict-IsValid r h = ground arith

-- `Event.from_dict(e.to_dict())` rebuilds every event that the constructor accepts, and raises for
-- every other.
pub from_dict-to_dict : (e : Event) → from_dict (to_dict e) ≡ post_init e
unfolding from_dict to_dict
from_dict-to_dict e = refl

-- `normalize` loses nothing: a key outside of the schema is found in `extra`, over what the
-- sensor's own `extra` has under that key, and every other key of the sensor's `extra` is kept.
pub normalize_lossless :
    (now : Text) (r : RawEvent) {e : Event} (k : Text)
    → IsDict r.others
    → normalize now r ≡ ok e
    → (lookup k e.extra ≡ or_else (lookup k r.others) (lookup k (or_empty r.extra))) × IsValid e
unfolding normalize
normalize_lossless now r k h eq = ground (arith, lookup-update k (or_empty r.extra) r.others h)
