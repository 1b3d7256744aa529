-- ===== src/Rules/Engine/Laws.antt =====
-- What the rule engine adds for an event, and what a faulty rule or a missing field does.
use sentinel_antivirus.Prelude.{
  text_beq, ℕ, ◌*◌, ◌≤◌, ◌≡◌, refl, ap, inl, inr, true, false, none, List, [], ◌∷◌, ◌++◌, arith,
  ◌==◌, nat_eq, pair_eq, Bool-cases, length, Text, codes, text_eq,
}
use sentinel_antivirus.Dict.{lookup}
use sentinel_antivirus.Result.{Error, ok, err, Result-cases}
use sentinel_antivirus.Builtins.{Python}
use sentinel_antivirus.Schema.{Event, Value, null}
use sentinel_antivirus.Scoring.Signals.{default_weight, effective_weight, total_weight}
use sentinel_antivirus.Scoring.Weights.{total_weight-append}
use sentinel_antivirus.Rules.Match.{
  Expected, one, one_of, criteria, matches, match_all, match_expected, any_match, match_value,
  lookup_field, attributes,
}
use sentinel_antivirus.Rules.Engine.{
  Rule, signal_kind, match_rule, match_rules, found, applies_to, selected,
}
use sentinel_antivirus.Rules.Condition.{eval}

-- A rule that has an error, in its condition or in a modifier, is as if it were not there.
pub match_rules-error :
    (py : Python) (now : ℕ) (e : Event) (rs : List Rule) (r : Rule) (others : List Rule) {x : Error}
    → match_rule py now e r ≡ err x
    → match_rules py now e (rs ++ r ∷ others) ≡ match_rules py now e (rs ++ others)
unfolding match_rules
match_rules-error py now e [] r others h = rw h refl
match_rules-error py now e (q ∷ rs) r others h =
    ap (λ gs. found (match_rule py now e q) ++ gs) (match_rules-error py now e rs r others h)

kind_weight-le : (py : Python) (r : Rule) → default_weight (signal_kind py r) ≤ 40
unfolding signal_kind default_weight lookup text_beq
kind_weight-le py r = elim (Bool-cases (py.lower r.level == codes "high")) [
  | inl high ↦ rw high (omega arith)
  | inr low ↦ rw low (elim (Bool-cases (py.lower r.level == codes "medium")) [
    | inl medium ↦ rw medium (omega arith)
    | inr lower ↦ rw lower (omega arith)
  ])
]

found-le :
    (py : Python) (now : ℕ) (e : Event) (r : Rule)
    → total_weight (found (match_rule py now e r)) ≤ 40
unfolding match_rule effective_weight
found-le py now e r = elim (Bool-cases (applies_to e r)) [
  | inr out ↦ rw out (omega arith)
  | inl applies ↦ rw applies (elim (Result-cases (eval (selected py e r) r.condition)) [
    | inr (x, h) ↦ rw h (omega arith)
    | inl (true, h) ↦ rw h (omega (arith, kind_weight-le py r))
    | inl (false, h) ↦ rw h (omega arith)
  ])
]

-- The rules give an event at most 40 points each.
pub match_rules-le :
    (py : Python) (now : ℕ) (e : Event) (rs : List Rule)
    → total_weight (match_rules py now e rs) ≤ 40 * length rs
unfolding match_rules
match_rules-le py now e [] = omega arith
match_rules-le py now e (r ∷ rs) = omega (
  arith,
  total_weight-append (found (match_rule py now e r)) (match_rules py now e rs),
  found-le py now e r,
  match_rules-le py now e rs,
)

any_match-null :
    (py : Python) (modifier : Text) (vs : List Value) → any_match py null modifier vs ≡ ok false
unfolding any_match match_value
any_match-null py modifier [] = refl
any_match-null py modifier (v ∷ vs) = any_match-null py modifier vs

lookup_field-parent_image :
    (e : Event)
    → lookup (codes "parent_image") e.extra ≡ none
    → lookup_field e (codes "parent_image") ≡ null
unfolding lookup_field attributes lookup text_beq
lookup_field-parent_image e h = rw (lookup_field, h) refl

match_expected-null :
    (py : Python) (modifier : Text) (x : Expected) → match_expected py null modifier x ≡ ok false
unfolding match_expected match_value
match_expected-null py modifier (one v) = refl
match_expected-null py modifier (one_of vs) = any_match-null py modifier vs

-- A criterion on the parent's image fails its selection, whatever it expects, for an event without
-- such a field: it is no attribute, and the alias of it names none.
pub matches-parent_image :
    (py : Python) (e : Event) (modifier : Text) (x : Expected) (cs : List (Text × Text × Expected))
    → lookup (codes "parent_image") e.extra ≡ none
    → matches py e (criteria ((codes "parent_image", modifier, x) ∷ cs)) ≡ ok false
unfolding matches match_all
matches-parent_image py e modifier x cs h =
    rw (match_all, lookup_field-parent_image e h, match_expected-null py modifier x) refl
