-- ===== src/Prelude/Decimal.antt =====
-- `str(n)` writes digits only, and different numbers differently.
use Prim.Native.Nat.{ℕ, zero, suc, ◌+◌, ◌-◌, ◌*◌, ◌/◌, ◌≤◌, ◌<◌}
use mathlib.Core.Path.{◌≡◌, refl, sym, ◌∙◌, ap}
use mathlib.Core.Logic.{inl, inr}
use mathlib.Core.Bool.{true}
use mathlib.Core.List.{List, [], ◌∷◌, ◌++◌}
use native.Mathlib.Omega.{arith}
use sentinel_antivirus.Prelude.Tests.{ltb, Bool-cases}
use sentinel_antivirus.Prelude.Lists.{All}
use sentinel_antivirus.Prelude.Texts.{Text, digits, decimal, starts_with}

abbrev pub IsDigit : ℕ → Type 0
IsDigit c = (b'0' ≤ c) × (c ≤ b'9')

All-append {ℓ κ} :
    {A : Type ℓ} (P : A → Type κ) (xs ys : List A) → All P xs → All P ys → All P (xs ++ ys)
All-append P [] ys h k = k
All-append P (x ∷ xs) ys h k = (h.0, All-append P xs ys h.1 k)

digits-IsDigit : (fuel n : ℕ) → All IsDigit (digits fuel n)
unfolding digits
digits-IsDigit zero n = tt
digits-IsDigit (suc fuel) n = elim (Bool-cases (ltb n 10)) [
  | inl small ↦ rw small ((ground arith, ground arith), tt)
  | inr big ↦ rw big (
      All-append IsDigit (digits fuel (n / 10)) _ (digits-IsDigit fuel (n / 10))
        ((omega arith, omega arith), tt))
]

-- The number that the digits stand for.
value : ℕ → Text → ℕ
value acc [] = acc
value acc (c ∷ s) = value (acc * 10 + (c - b'0')) s

value-append : (acc : ℕ) (s t : Text) → value acc (s ++ t) ≡ value (value acc s) t
unfolding value
value-append acc [] t = refl
value-append acc (c ∷ s) t = value-append (acc * 10 + (c - b'0')) s t

value-digits : (fuel n : ℕ) → n < fuel → value 0 (digits fuel n) ≡ n
unfolding digits value
value-digits zero n h = elim h [ ]
value-digits (suc fuel) n h = elim (Bool-cases (ltb n 10)) [
  | inl small ↦ rw small (omega arith)
  | inr big ↦ rw (big, value-append, value-digits fuel (n / 10) (ground arith)) (omega arith)
]

pub decimal-IsDigit : (n : ℕ) → All IsDigit (decimal n)
unfolding decimal
decimal-IsDigit n = digits-IsDigit (suc n) n

pub decimal_injective : (m n : ℕ) → decimal m ≡ decimal n → m ≡ n
unfolding decimal
decimal_injective m n h =
    sym (value-digits (suc m) m (omega arith))
    ∙ ap (value 0) h
    ∙ value-digits (suc n) n (omega arith)

-- Two texts of digits before a mark that is no digit: one is a prefix of the other only if they are
-- the same text.
pub digits_before_mark :
    (mark : ℕ) (s t rest : Text)
    → b'9' < mark
    → All IsDigit s
    → All IsDigit t
    → starts_with (s ++ mark ∷ rest) (t ++ mark ∷ []) ≡ true
    → s ≡ t
unfolding starts_with
digits_before_mark mark [] [] rest m hs ht h = refl
digits_before_mark mark [] (d ∷ t) rest m hs ht h = absurd (ground arith)
digits_before_mark mark (c ∷ s) [] rest m hs ht h = absurd (ground arith)
digits_before_mark mark (c ∷ s) (d ∷ t) rest m hs ht h =
    ground (arith, digits_before_mark mark s t rest m hs.1 ht.1)
