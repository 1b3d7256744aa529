-- ===== src/Rules/Engine.antt =====
-- `Rule` and `RuleEngine` of sentinel/engine/rule_engine.py.
pub mod Laws
use sentinel_antivirus.Prelude.{
  ℕ, Bool, true, not, Option, none, some, List, [], ◌∷◌, ◌++◌, map, if◌then◌else◌, ◌==◌, nat_eq,
  is_empty, Text, codes, text_eq,
}
use sentinel_antivirus.Dict.{Dict, lookup}
use sentinel_antivirus.Result.{◌>>=◌, rule_syntax_error, Result, ok, err}
use sentinel_antivirus.Builtins.{Python}
use sentinel_antivirus.Schema.{Event}
use sentinel_antivirus.Scoring.Signals.{Signal, new_signal, format_pid_subject}
use sentinel_antivirus.Rules.Match.{Expected, Selection, external, selection, matches}
use sentinel_antivirus.Rules.Condition.{eval}

-- One entry of a rule's `detection`: a mapping, or anything else, which is a hook.
pub data Definition : Type 0 where
  mapping : Dict Text Expected → Definition
  hook : Definition

-- A rule's document. Its `detection` is read without the entry "condition", which stands apart.
pub record Document : Type 0 where
  pub level : Text
  pub category : Option Text
  pub condition : Option Text
  pub detection : Dict Text Definition

pub record Rule : Type 0 where
  pub level : Text
  pub category : Option Text
  pub condition : Text
  pub selections : Dict Text Selection

unfoldable pub define : Python → Definition → Selection
define py (mapping d) = selection py d
define py hook = external

-- `Rule(doc)`
unfoldable pub new_rule : Python → Document → Result Rule
new_rule py doc = elim doc.condition [
  | none ↦ err rule_syntax_error
  | some c ↦ ok (record {
    level = doc.level;
    category = doc.category;
    condition = c;
    selections = map (λ d. (d.0, define py d.1)) doc.detection;
  })
]

-- `signal_kind`
unfoldable pub signal_kind : Python → Rule → Text
signal_kind py r =
    if py.lower r.level == codes "high"
    then codes "rule_match_high"
    else if py.lower r.level == codes "medium"
    then codes "rule_match_medium"
    else codes "rule_match_low"

-- `applies_to`
unfoldable pub applies_to : Event → Rule → Bool
applies_to e r = elim r.category [ none ↦ true | some c ↦ e.event_type == c ]

-- `_subject_of`
unfoldable pub subject_of : Event → Text
subject_of e = elim e.pid [
  | some pid ↦ format_pid_subject pid none
  | none ↦ elim e.image_path [
    | none ↦ codes "unknown"
    | some p ↦ if is_empty p then codes "unknown" else codes "path:" ++ p
  ]
]

-- `self._selections.get(ident)` and `sel.matches(event)`
unfoldable pub selected : Python → Event → Rule → Text → Result Bool
selected py e r name = elim (lookup name r.selections) [
  | none ↦ err rule_syntax_error
  | some s ↦ matches py e s
]

-- `Rule.match`
unfoldable pub match_rule : Python → ℕ → Event → Rule → Result (Option Signal)
match_rule py now e r = if not (applies_to e r) then ok none else do
  holds ← eval (selected py e r) r.condition
  ok (
      if holds
      then some (new_signal now (signal_kind py r) (subject_of e) (codes "rule_engine"))
      else none)

-- What a rule adds; a rule with an error is skipped.
abbrev pub found : Result (Option Signal) → List Signal
found (ok (some g)) = g ∷ []
found _ = []

-- `RuleEngine.match`
unfoldable pub match_rules : Python → ℕ → Event → List Rule → List Signal
match_rules py now e [] = []
match_rules py now e (r ∷ rs) = found (match_rule py now e r) ++ match_rules py now e rs
