-- ===== src/Rules/Condition/Parse.antt =====
-- The parser computes the value of the condition whose tokens it reads.
use mathlib.Core.List.{append_assoc, append-nil}
use sentinel_antivirus.Prelude.{
  ℕ, zero, suc, ◌+◌, ◌≤◌, ◌<◌, ◌≡◌, refl, sym, ap, ◌∙◌, Bool, true, false, ◌&&◌, ◌||◌, not, List,
  [], ◌∷◌, ◌++◌, arith, nat_eq, pair_eq, length, length-append, Text, text_eq,
}
use sentinel_antivirus.Result.{Result, ok, err, ◌>>=◌}
use sentinel_antivirus.Rules.Condition.{
  Token, close_paren, and_word, or_word, Read, parse_not, expect_close, all_read, and_loop,
  parse_and, or_loop, parse_or, eval_tokens,
}
use sentinel_antivirus.Rules.Condition.Grammar.{
  Disjunction, Conjunction, Literal, last_or, or_then, last_and, and_then, negated, named, grouped,
  print_or, print_and, print_not, value_or, value_and, value_not, depth_or, depth_and, depth_not,
  depth-le-tokens,
}

-- The tokens do not go on with `and`, or with `or` or `and`.
abbrev ends_and : List Token → Bool
ends_and (and_word ∷ ts) = false
ends_and _ = true

abbrev ends_or : List Token → Bool
ends_or (or_word ∷ ts) = false
ends_or ts = ends_and ts

-- The value, with the tokens that follow
abbrev reads : Result Bool → List Token → Read
reads r rest = r >>= λ v. ok (v, rest)

-- Reading a value and going on from there
after :
    {C : Type 0} (f : Bool × List Token → Result C) (g : Bool → Result C) (r : Result Bool)
    {rest : List Token} {q : Read}
    → q ≡ reads r rest
    → ((v : Bool) → f (v, rest) ≡ g v)
    → (q >>= f) ≡ (r >>= g)
after f g (ok v) h e = ap (λ q. q >>= f) h ∙ e v
after f g (err x) h e = ap (λ q. q >>= f) h

reads_one :
    (r : Result Bool) (f : Bool → Bool) (rest : List Token)
    → (r >>= λ v. ok (f v, rest)) ≡ reads (r >>= λ v. ok (f v)) rest
reads_one (ok v) f rest = refl
reads_one (err x) f rest = refl

reads_both :
    (r s : Result Bool) (op : Bool → Bool → Bool) (rest : List Token)
    → (r >>= λ v. s >>= λ w. ok (op v w, rest)) ≡ reads (r >>= λ v. s >>= λ w. ok (op v w)) rest
reads_both (ok v) (ok w) op rest = refl
reads_both (ok v) (err x) op rest = refl
reads_both (err x) s op rest = refl

abbrev one_read : Bool → List Token → Read
one_read v rest = ok (v, rest)

reads_third :
    (r s : Result Bool) (op : Bool → Bool → Bool) (v : Bool) (rest : List Token)
    → ((a b c : Bool) → op (op a b) c ≡ op a (op b c))
    → (r >>= λ a. s >>= λ b. one_read (op (op v a) b) rest)
      ≡ ((r >>= λ a. s >>= λ b. ok (op a b)) >>= λ w. one_read (op v w) rest)
reads_third (ok a) (ok b) op v rest assoc = ap (λ x. ok (x, rest)) (assoc v a b)
reads_third (ok a) (err x) op v rest assoc = refl
reads_third (err x) s op v rest assoc = refl

and_assoc : (a b c : Bool) → ((a && b) && c) ≡ (a && (b && c))
and_assoc true b c = refl
and_assoc false b c = refl

or_assoc : (a b c : Bool) → ((a || b) || c) ≡ (a || (b || c))
or_assoc true b c = refl
or_assoc false b c = refl

mutual
  unfolding print_not print_and

  length_pos : (l : Literal) → 1 ≤ length (print_not l)
  length_pos (negated l) = omega arith
  length_pos (named n) = omega arith
  length_pos (grouped d) = omega arith

  length_pos_and : (c : Conjunction) → 1 ≤ length (print_and c)
  length_pos_and (last_and l) = length_pos l
  length_pos_and (and_then l c) =
      omega (arith, length_pos l, length-append (print_not l) (and_word ∷ print_and c))

bind_ok : (r : Result Bool) → (r >>= λ v. ok v) ≡ r
bind_ok (ok v) = refl
bind_ok (err x) = refl

module _ (sel : Text → Result Bool) where
  and_loop_ends :
      (n : ℕ) (inner : List Token → Read) (v : Bool) (rest : List Token)
      → 0 < n
      → ends_and rest ≡ true
      → and_loop sel n inner v rest ≡ ok (v, rest)
  unfolding and_loop
  and_loop_ends zero inner v rest h e = elim h [ ]
  and_loop_ends (suc n) inner v [] h e = refl
  and_loop_ends (suc n) inner v (and_word ∷ ts) h e = cc
  and_loop_ends (suc n) inner v (t ∷ ts) h e = refl

  or_loop_ends :
      (n : ℕ) (inner : List Token → Read) (v : Bool) (rest : List Token)
      → 0 < n
      → ends_or rest ≡ true
      → or_loop sel n inner v rest ≡ ok (v, rest)
  unfolding or_loop
  or_loop_ends zero inner v rest h e = elim h [ ]
  or_loop_ends (suc n) inner v [] h e = refl
  or_loop_ends (suc n) inner v (or_word ∷ ts) h e = cc
  or_loop_ends (suc n) inner v (t ∷ ts) h e = refl

  ends_or-ends_and : (rest : List Token) → ends_or rest ≡ true → ends_and rest ≡ true
  ends_or-ends_and [] e = refl
  ends_or-ends_and (or_word ∷ ts) e = cc
  ends_or-ends_and (t ∷ ts) e = e

  mutual
    unfolding print_or print_and print_not value_or value_and value_not depth_or depth_and depth_not
        parse_not and_loop parse_and or_loop parse_or

    read_not :
        (l : Literal) (k : ℕ) (rest : List Token)
        → depth_not l ≤ k
        → parse_not sel (parse_or sel k) (print_not l ++ rest) ≡ reads (value_not sel l) rest
    read_not (negated l) k rest h =
        after _ _ (value_not sel l) (read_not l k rest h) (λ v. refl)
        ∙ reads_one (value_not sel l) not rest
    read_not (named n) k rest h = refl
    read_not (grouped d) zero rest h = absurd (omega arith)
    read_not (grouped d) (suc k) rest h =
        ap (λ ts. parse_or sel (suc k) ts >>= λ p. expect_close sel p.0 p.1)
          (append_assoc (print_or d) (close_paren ∷ []) rest)
        ∙ after _ _ (value_or sel d) (read_or d k (close_paren ∷ rest) (omega arith) refl)
            (λ v. refl)

    read_and_loop :
        (c : Conjunction) (k n : ℕ) (v : Bool) (rest : List Token)
        → depth_and c ≤ k
        → length (print_and c) + 1 < n
        → ends_and rest ≡ true
        → and_loop sel n (parse_or sel k) v (and_word ∷ print_and c ++ rest)
          ≡ (value_and sel c >>= λ w. ok (v && w, rest))
    read_and_loop (last_and l) k zero v rest h m e = absurd (omega arith)
    read_and_loop (last_and l) k (suc n) v rest h m e =
        after _ _ (value_not sel l) (read_not l k rest h)
          (λ w. and_loop_ends n (parse_or sel k) (v && w) rest (omega arith) e)
    read_and_loop (and_then l c) k zero v rest h m e = absurd (omega arith)
    read_and_loop (and_then l c) k (suc n) v rest h m e =
        after _ _ (value_not sel l)
          (ap (parse_not sel (parse_or sel k))
              (append_assoc (print_not l) (and_word ∷ print_and c) rest)
            ∙ read_not l k (and_word ∷ print_and c ++ rest) (omega arith))
          (λ w.
            read_and_loop c k n (v && w) rest (omega arith)
              (omega (arith, length-append (print_not l) (and_word ∷ print_and c))) e)
        ∙ reads_third (value_not sel l) (value_and sel c) (λ a b. a && b) v rest and_assoc

    read_and :
        (c : Conjunction) (k : ℕ) (rest : List Token)
        → depth_and c ≤ k
        → ends_and rest ≡ true
        → parse_and sel (parse_or sel k) (print_and c ++ rest) ≡ reads (value_and sel c) rest
    read_and (last_and l) k rest h e = after _ _ (value_not sel l) (read_not l k rest h) (λ v.
        and_loop_ends (suc (length (print_not l ++ rest))) (parse_or sel k) v rest (omega arith) e)
    read_and (and_then l c) k rest h e =
        after _ _ (value_not sel l)
          (ap (parse_not sel (parse_or sel k))
              (append_assoc (print_not l) (and_word ∷ print_and c) rest)
            ∙ read_not l k (and_word ∷ print_and c ++ rest) (omega arith))
          (λ v.
            read_and_loop c k (suc (length ((print_not l ++ and_word ∷ print_and c) ++ rest))) v
              rest (omega arith)
              (omega (
                arith,
                length-append (print_not l) (and_word ∷ print_and c),
                length-append (print_not l ++ and_word ∷ print_and c) rest,
                length_pos l,
              ))
              e)
        ∙ reads_both (value_not sel l) (value_and sel c) (λ a b. a && b) rest

    read_or_loop :
        (d : Disjunction) (k n : ℕ) (v : Bool) (rest : List Token)
        → depth_or d ≤ k
        → length (print_or d) + 1 < n
        → ends_or rest ≡ true
        → or_loop sel n (parse_or sel k) v (or_word ∷ print_or d ++ rest)
          ≡ (value_or sel d >>= λ w. ok (v || w, rest))
    read_or_loop (last_or c) k zero v rest h m e = absurd (omega arith)
    read_or_loop (last_or c) k (suc n) v rest h m e =
        after _ _ (value_and sel c) (read_and c k rest h (ends_or-ends_and rest e))
          (λ w. or_loop_ends n (parse_or sel k) (v || w) rest (omega arith) e)
    read_or_loop (or_then c d) k zero v rest h m e = absurd (omega arith)
    read_or_loop (or_then c d) k (suc n) v rest h m e =
        after _ _ (value_and sel c)
          (ap (parse_and sel (parse_or sel k))
              (append_assoc (print_and c) (or_word ∷ print_or d) rest)
            ∙ read_and c k (or_word ∷ print_or d ++ rest) (omega arith) refl)
          (λ w.
            read_or_loop d k n (v || w) rest (omega arith)
              (omega (arith, length-append (print_and c) (or_word ∷ print_or d))) e)
        ∙ reads_third (value_and sel c) (value_or sel d) (λ a b. a || b) v rest or_assoc

    read_or :
        (d : Disjunction) (k : ℕ) (rest : List Token)
        → depth_or d ≤ k
        → ends_or rest ≡ true
        → parse_or sel (suc k) (print_or d ++ rest) ≡ reads (value_or sel d) rest
    read_or (last_or c) k rest h e =
        after _ _ (value_and sel c) (read_and c k rest h (ends_or-ends_and rest e)) (λ v.
          or_loop_ends (suc (length (print_and c ++ rest))) (parse_or sel k) v rest (omega arith) e)
    read_or (or_then c d) k rest h e =
        after _ _ (value_and sel c)
          (ap (parse_and sel (parse_or sel k))
              (append_assoc (print_and c) (or_word ∷ print_or d) rest)
            ∙ read_and c k (or_word ∷ print_or d ++ rest) (omega arith) refl)
          (λ v.
            read_or_loop d k (suc (length ((print_and c ++ or_word ∷ print_or d) ++ rest))) v rest
              (omega arith)
              (omega (
                arith,
                length-append (print_and c) (or_word ∷ print_or d),
                length-append (print_and c ++ or_word ∷ print_or d) rest,
                length_pos_and c,
              ))
              e)
        ∙ reads_both (value_and sel c) (value_or sel d) (λ a b. a || b) rest

  -- Evaluating the tokens of a condition of the grammar gives the value that the grammar gives it,
  -- or the error of the first selection that has one.
  pub eval_tokens-print : (d : Disjunction) → eval_tokens sel (print_or d) ≡ value_or sel d
  unfolding eval_tokens
  eval_tokens-print d =
      ap (λ ts. parse_or sel (suc (length (print_or d))) ts >>= λ p. all_read sel p.0 p.1)
        (sym (append-nil (print_or d)))
      ∙ after _ _ (value_or sel d) (read_or d (length (print_or d)) [] (depth-le-tokens d) refl)
          (λ v. refl)
      ∙ bind_ok (value_or sel d)
