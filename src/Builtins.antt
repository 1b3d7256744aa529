-- ===== src/Builtins.antt =====
-- What the program uses of Python's text and number conversions, and is not defined here: Unicode
-- case mapping and white space, and the grammar of numbers. Nothing is assumed of them.
use sentinel_antivirus.Prelude.{
  ℕ, ◌*◌, ◌/◌, Bool, true, false, not, Option, none, some, ltb, nat_eq, pair_eq, is_empty, Text,
  codes, text_eq, decimal,
}
use sentinel_antivirus.Schema.{Value, null, bool, int, float, text, Extra}
use sentinel_antivirus.Dict.{lookup}
use sentinel_antivirus.Result.{Result, ok, err, value_error, type_error}

pub record Python : Type 0 where
  -- `s.lower()` and `s.strip()`
  pub lower : Text → Text
  pub strip : Text → Text
  -- `str(x)` for a float of n ten-thousandths
  pub float_text : ℕ → Text
  -- `int(s)` and `float(s)`, the latter in ten-thousandths; `none` where they raise
  pub parse_int : Text → Option ℕ
  pub parse_float : Text → Option ℕ

abbrev parsed : Option ℕ → Result ℕ
parsed none = err value_error
parsed (some n) = ok n

abbrev bit : Bool → ℕ
bit true = 1
bit false = 0

module _ (py : Python) where
  -- `str(v)`
  unfoldable pub to_text : Value → Text
  to_text null = codes "None"
  to_text (bool true) = codes "True"
  to_text (bool false) = codes "False"
  to_text (int n) = decimal n
  to_text (float n) = py.float_text n
  to_text (text t) = t

  -- `int(v)` truncates a float.
  unfoldable pub to_int : Value → Result ℕ
  to_int null = err type_error
  to_int (bool b) = ok (bit b)
  to_int (int n) = ok n
  to_int (float n) = ok (n / 10000)
  to_int (text t) = parsed (py.parse_int t)

  -- `float(v)`, in ten-thousandths
  unfoldable pub to_float : Value → Result ℕ
  to_float null = err type_error
  to_float (bool b) = ok (bit b * 10000)
  to_float (int n) = ok (n * 10000)
  to_float (float n) = ok n
  to_float (text t) = parsed (py.parse_float t)

-- `bool(v)`
unfoldable pub truthy : Value → Bool
truthy null = false
truthy (bool b) = b
truthy (int n) = ltb 0 n
truthy (float n) = ltb 0 n
truthy (text t) = not (is_empty t)

-- `extra.get(key)`, where an absent key reads as `None`
unfoldable pub field : Text → Extra → Value
field key x = elim (lookup key x) [ none ↦ null | some v ↦ v ]
