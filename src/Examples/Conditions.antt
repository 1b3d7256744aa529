-- ===== src/Examples/Conditions.antt =====
-- A condition of a rule.
use sentinel_antivirus.Prelude.{
  ◌≡◌, refl, Bool, ◌==◌, nat_eq, pair_eq, Text, codes, text_beq, text_eq,
}
use sentinel_antivirus.Result.{Result, ok}
use sentinel_antivirus.Rules.Condition.{eval_tokens, tokenize}
use sentinel_antivirus.Rules.Condition.Grammar.{
  Disjunction, last_or, or_then, last_and, and_then, negated, named, grouped, print_or, value_or,
  print_and, print_not,
}
use sentinel_antivirus.Rules.Condition.Parse.{eval_tokens-print}

-- a and not (b or c) or d
abbrev condition : Disjunction
condition =
    or_then
      (and_then (named (codes "a")) (
        last_and (
          negated (
            grouped
              (or_then (last_and (named (codes "b"))) (last_or (last_and (named (codes "c")))))))))
      (last_or (last_and (named (codes "d"))))

tokenize_condition : tokenize (codes "a and not (b or c) or d") ≡ print_or condition
unfolding tokenize print_or print_and print_not text_beq
tokenize_condition = refl

abbrev holds : Text → Result Bool
holds name = ok (name == codes "a")

eval_tokens-print_example : eval_tokens holds (print_or condition) ≡ value_or holds condition
eval_tokens-print_example = eval_tokens-print holds condition
