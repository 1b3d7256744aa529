-- ===== src/Rules/Condition.antt =====
-- `_Condition` of sentinel/engine/rule_engine.py: the tokens of an expression, and the
-- recursive-descent parser that evaluates while it reads. `fuel` bounds the depth of its calls.
pub mod Grammar
pub mod Parse
use sentinel_antivirus.Prelude.{
  ℕ, zero, suc, Bool, ◌&&◌, ◌||◌, not, List, [], ◌∷◌, ◌++◌, leb, if◌then◌else◌, ◌==◌, nat_eq,
  length, is_empty, Text, codes, text_eq,
}
use sentinel_antivirus.Result.{◌>>=◌, rule_syntax_error, Result, ok, err}

pub data Token : Type 0 where
  open_paren close_paren and_word or_word not_word : Token
  ident : Text → Token

pub data CharClass : Type 0 where
  paren start digit other : CharClass

-- `(` or `)`, `[A-Za-z_]`, `[0-9]`, and the rest
unfoldable pub char_class : ℕ → CharClass
char_class c =
    if c == b'(' || c == b')'
    then paren
    else if (leb b'A' c && leb c b'Z') || (leb b'a' c && leb c b'z') || c == b'_'
    then start
    else if leb b'0' c && leb c b'9'
    then digit
    else other

abbrev paren_token : ℕ → Token
paren_token c = if c == b'(' then open_paren else close_paren

-- A word is a keyword or a name.
unfoldable pub word_token : Text → Token
word_token w =
    if w == codes "and"
    then and_word
    else if w == codes "or"
    then or_word
    else if w == codes "not"
    then not_word
    else ident w

abbrev flush_word : Text → List Token → List Token
flush_word [] ts = ts
flush_word (c ∷ w) ts = word_token (c ∷ w) ∷ ts

-- `_token_re.findall`: `word` is the word that is being read. A digit goes on a word and begins
-- none.
unfoldable pub scan : Text → Text → List Token
scan word [] = flush_word word []
scan word (c ∷ s) = elim (char_class c) [
  | paren ↦ flush_word word (paren_token c ∷ scan [] s)
  | start ↦ scan (word ++ c ∷ []) s
  | digit ↦ scan (if is_empty word then [] else word ++ c ∷ []) s
  | other ↦ flush_word word (scan [] s)
]

-- `expression or "selection"`
unfoldable pub tokenize : Text → List Token
unfolding scan char_class word_token
tokenize expression = scan [] (if is_empty expression then codes "selection" else expression)

-- A token as a name: what stands where an atom is expected is looked up, be it a keyword or `)`.
abbrev pub token_text : Token → Text
token_text open_paren = codes "("
token_text close_paren = codes ")"
token_text and_word = codes "and"
token_text or_word = codes "or"
token_text not_word = codes "not"
token_text (ident name) = name

-- A value that was read, and the tokens that follow
abbrev pub Read : Type 0
Read = Result (Bool × List Token)

module _ (sel : Text → Result Bool) where
  -- `_expect(")")`
  abbrev pub expect_close : Bool → List Token → Read
  expect_close v (close_paren ∷ ts) = ok (v, ts)
  expect_close v _ = err rule_syntax_error

  -- `_parse_atom`, with the reader of a parenthesised expression given
  abbrev pub parse_atom : (List Token → Read) → List Token → Read
  parse_atom inner (open_paren ∷ ts) = do (v, rest) ← inner ts; expect_close v rest
  parse_atom inner [] = err rule_syntax_error
  parse_atom inner (t ∷ ts) = do v ← sel (token_text t); ok (v, ts)

  -- `_parse_not`
  unfoldable pub parse_not : (List Token → Read) → List Token → Read
  parse_not inner (not_word ∷ ts) = do (v, rest) ← parse_not inner ts; ok (not v, rest)
  parse_not inner ts = parse_atom inner ts

  -- The loop of `_parse_and`
  unfoldable pub and_loop : ℕ → (List Token → Read) → Bool → List Token → Read
  and_loop zero inner v ts = err rule_syntax_error
  and_loop (suc n) inner v (and_word ∷ ts) = do
    (w, rest) ← parse_not inner ts
    and_loop n inner (v && w) rest
  and_loop (suc n) inner v ts = ok (v, ts)

  -- `_parse_and`; each round of the loop takes a token.
  unfoldable pub parse_and : (List Token → Read) → List Token → Read
  parse_and inner ts = do (v, rest) ← parse_not inner ts; and_loop (suc (length ts)) inner v rest

  -- The loop of `_parse_or`
  unfoldable pub or_loop : ℕ → (List Token → Read) → Bool → List Token → Read
  or_loop zero inner v ts = err rule_syntax_error
  or_loop (suc n) inner v (or_word ∷ ts) = do
    (w, rest) ← parse_and inner ts
    or_loop n inner (v || w) rest
  or_loop (suc n) inner v ts = ok (v, ts)

  -- `_parse_or`, to a depth of `fuel` parentheses
  unfoldable pub parse_or : ℕ → List Token → Read
  unfolding or_loop parse_and and_loop parse_not
  parse_or zero ts = err rule_syntax_error
  parse_or (suc fuel) ts = do
    (v, rest) ← parse_and (parse_or fuel) ts
    or_loop (suc (length ts)) (parse_or fuel) v rest

  abbrev pub all_read : Bool → List Token → Result Bool
  all_read v [] = ok v
  all_read v _ = err rule_syntax_error

  -- `eval`: no token may be left. There are fewer parentheses than tokens.
  unfoldable pub eval_tokens : List Token → Result Bool
  unfolding parse_or
  eval_tokens ts = do (v, rest) ← parse_or (suc (length ts)) ts; all_read v rest

-- The value of a condition over named selections
unfoldable pub eval : (Text → Result Bool) → Text → Result Bool
unfolding eval_tokens tokenize
eval sel expression = eval_tokens sel (tokenize expression)
