-- ===== src/Rules/Condition/Grammar.antt =====
-- The conditions of a rule as a grammar with the usual precedences, their tokens and their value.
use sentinel_antivirus.Prelude.{
  ℕ, suc, ◌≤◌, max, Bool, ◌&&◌, ◌||◌, not, List, [], ◌∷◌, ◌++◌, arith, nat_eq, pair_eq, length,
  length-append, Text, text_eq,
}
use sentinel_antivirus.Result.{Result, ok, ◌>>=◌}
use sentinel_antivirus.Rules.Condition.{
  Token, open_paren, close_paren, and_word, or_word, not_word, ident,
}

mutual
  pub data Disjunction : Type 0 where
    last_or : Conjunction → Disjunction
    or_then : Conjunction → Disjunction → Disjunction

  pub data Conjunction : Type 0 where
    last_and : Literal → Conjunction
    and_then : Literal → Conjunction → Conjunction

  pub data Literal : Type 0 where
    negated : Literal → Literal
    named : Text → Literal
    grouped : Disjunction → Literal

unfoldable mutual
  pub print_or : Disjunction → List Token
  print_or (last_or c) = print_and c
  print_or (or_then c d) = print_and c ++ or_word ∷ print_or d

  pub print_and : Conjunction → List Token
  print_and (last_and l) = print_not l
  print_and (and_then l c) = print_not l ++ and_word ∷ print_and c

  pub print_not : Literal → List Token
  print_not (negated l) = not_word ∷ print_not l
  print_not (named n) = ident n ∷ []
  print_not (grouped d) = open_paren ∷ print_or d ++ close_paren ∷ []

module _ (sel : Text → Result Bool) where
  unfoldable mutual
    pub value_or : Disjunction → Result Bool
    value_or (last_or c) = value_and c
    value_or (or_then c d) = value_and c >>= λ v. value_or d >>= λ w. ok (v || w)

    pub value_and : Conjunction → Result Bool
    value_and (last_and l) = value_not l
    value_and (and_then l c) = value_not l >>= λ v. value_and c >>= λ w. ok (v && w)

    pub value_not : Literal → Result Bool
    value_not (negated l) = value_not l >>= λ v. ok (not v)
    value_not (named n) = sel n
    value_not (grouped d) = value_or d

-- How deep the parentheses go
unfoldable mutual
  pub depth_or : Disjunction → ℕ
  depth_or (last_or c) = depth_and c
  depth_or (or_then c d) = max (depth_and c) (depth_or d)

  pub depth_and : Conjunction → ℕ
  depth_and (last_and l) = depth_not l
  depth_and (and_then l c) = max (depth_not l) (depth_and c)

  pub depth_not : Literal → ℕ
  depth_not (negated l) = depth_not l
  depth_not (named n) = 0
  depth_not (grouped d) = suc (depth_or d)

mutual
  unfolding print_or print_and print_not depth_or depth_and depth_not

  depth_or-le : (d : Disjunction) → depth_or d ≤ length (print_or d)
  depth_or-le (last_or c) = depth_and-le c
  depth_or-le (or_then c d) =
      omega
        (arith, depth_and-le c, depth_or-le d, length-append (print_and c) (or_word ∷ print_or d))

  depth_and-le : (c : Conjunction) → depth_and c ≤ length (print_and c)
  depth_and-le (last_and l) = depth_not-le l
  depth_and-le (and_then l c) =
      omega (
        arith,
        depth_not-le l,
        depth_and-le c,
        length-append (print_not l) (and_word ∷ print_and c),
      )

  depth_not-le : (l : Literal) → depth_not l ≤ length (print_not l)
  depth_not-le (negated l) = omega (arith, depth_not-le l)
  depth_not-le (named n) = omega arith
  depth_not-le (grouped d) =
      omega (arith, depth_or-le d, length-append (print_or d) (close_paren ∷ []))

-- There are at least as many tokens as nested parentheses.
pub depth-le-tokens : (d : Disjunction) → depth_or d ≤ length (print_or d)
depth-le-tokens d = depth_or-le d
