-- ===== src/Rules/Match.antt =====
-- Fields, values and selections of a rule, in sentinel/engine/rule_engine.py.
use sentinel_antivirus.Prelude.{
  ends_with, ℕ, Bool, true, false, Option, none, some, List, [], ◌∷◌, ◌++◌, map, if◌then◌else◌,
  ◌==◌, nat_eq, pair_eq, Text, codes, text_eq, starts_with, contains_text,
}
use sentinel_antivirus.Dict.{Dict, lookup}
use sentinel_antivirus.Result.{◌>>=◌, rule_syntax_error, Result, ok, err}
use sentinel_antivirus.Builtins.{Python, to_text}
use sentinel_antivirus.Schema.{Event, Value, null, int, text}

-- The attributes of an event that hold a value. (`extra` and the methods are no fields of a rule.)
abbrev pub or_null : Option Text → Value
or_null none = null
or_null (some t) = text t

abbrev pub pid_value : Option ℕ → Value
pid_value none = null
pid_value (some n) = int n

unfoldable pub attributes : Event → Dict Text Value
attributes e =
    (codes "timestamp", text e.timestamp)
    ∷ (codes "source", text e.source)
    ∷ (codes "event_type", text e.event_type)
    ∷ (codes "pid", pid_value e.pid)
    ∷ (codes "parent_pid", pid_value e.parent_pid)
    ∷ (codes "image_path", or_null e.image_path)
    ∷ (codes "command_line", or_null e.command_line)
    ∷ (codes "hash_sha256", or_null e.hash_sha256)
    ∷ []

-- The aliases that name an attribute; those of `parent_image` name none.
abbrev pub alias : Text → Text
alias name = if name == codes "image" then codes "image_path" else name

-- `_lookup_field`: an attribute, an attribute by its alias, or what `extra` has.
unfoldable pub lookup_field : Event → Text → Value
lookup_field e name = elim (lookup name (attributes e)) [
  | some v ↦ v
  | none ↦ elim (lookup (alias name) (attributes e)) [
    | some v ↦ v
    | none ↦ elim (lookup name e.extra) [ some v ↦ v | none ↦ null ]
  ]
]

-- The comparison that a modifier stands for, on lower-case texts
unfoldable pub compare_texts : Text → Text → Text → Result Bool
compare_texts modifier a e =
    if modifier == codes "equals"
    then ok (a == e)
    else if modifier == codes "endswith"
    then ok (ends_with a e)
    else if modifier == codes "startswith"
    then ok (starts_with a e)
    else if modifier == codes "contains"
    then ok (contains_text a e)
    else err rule_syntax_error

-- `_match_value`
unfoldable pub match_value : Python → Value → Value → Text → Result Bool
match_value py null expected modifier = ok false
match_value py actual expected modifier =
    compare_texts modifier (py.lower (to_text py actual)) (py.lower (to_text py expected))

-- `_parse_key`: up to the first bar, and after it
unfoldable pub split_bar : Text → Text → Option (Text × Text)
split_bar before [] = none
split_bar before (c ∷ s) =
    let rest = split_bar (before ++ c ∷ []) s in if c == b'|' then some (before, s) else rest

unfoldable pub parse_key : Python → Text → Text × Text
parse_key py key = elim (split_bar [] key) [
  | some (name, modifier) ↦ (py.strip name, py.strip modifier)
  | none ↦ (py.strip key, codes "equals")
]

-- What a criterion expects: a value, or one of a list.
pub data Expected : Type 0 where
  one : Value → Expected
  one_of : List Value → Expected

-- `_Selection`: its criteria, or a hook outside of the rules, which is never true here
pub data Selection : Type 0 where
  criteria : List (Text × Text × Expected) → Selection
  external : Selection

-- `any(_match_value(actual, e, modifier) for e in expected)`
unfoldable pub any_match : Python → Value → Text → List Value → Result Bool
any_match py actual modifier [] = ok false
any_match py actual modifier (e ∷ es) =
    let rest = any_match py actual modifier es in
    do m ← match_value py actual e modifier; if m then ok true else rest

unfoldable pub match_expected : Python → Value → Text → Expected → Result Bool
match_expected py actual modifier (one e) = match_value py actual e modifier
match_expected py actual modifier (one_of es) = any_match py actual modifier es

-- All criteria hold.
unfoldable pub match_all : Python → Event → List (Text × Text × Expected) → Result Bool
match_all py e [] = ok true
match_all py e ((name, modifier, expected) ∷ cs) =
    let rest = match_all py e cs in
    do m ← match_expected py (lookup_field e name) modifier expected; if m then rest else ok false

-- `_Selection.matches`
unfoldable pub matches : Python → Event → Selection → Result Bool
matches py e (criteria cs) = match_all py e cs
matches py e external = ok false

-- `_Selection(definition)`
unfoldable pub selection : Python → Dict Text Expected → Selection
selection py d =
    criteria (map (λ k. let (name, modifier) = parse_key py k.0 in (name, modifier, k.1)) d)
