-- ===== src/Prelude/Texts.antt =====
-- Python's `str` as the list of its code points, with the operations that the program uses.
use Prim.Native.Nat.{ℕ, ◌+◌, zero, suc, ◌/◌, ◌%◌}
use Prim.Native.Char.{code}
use Prim.Native.String.{String}
use mathlib.Core.Path.{◌≡◌, refl}
use mathlib.Core.Logic.{◌↔◌}
use mathlib.Core.Bool.{Bool, true, false, ◌&&◌, ◌||◌}
use mathlib.Core.List.{reverse, List, [], ◌∷◌, ◌++◌}
use native.Mathlib.Omega.{arith}
use sentinel_antivirus.Prelude.Lists.{length}
use sentinel_antivirus.Prelude.Tests.{nat_beq, ltb, Eq, if◌then◌else◌}

abbrev pub Text : Type 0
Text = List ℕ

-- A literal.
abbrev pub codes : String → Text
codes String.[] = []
codes (String.◌∷◌ c s) = code c ∷ codes s

unfoldable pub text_beq : Text → Text → Bool
text_beq [] [] = true
text_beq (a ∷ s) (b ∷ t) = nat_beq a b && text_beq s t
text_beq _ _ = false

pub text_beq_iff : (s t : Text) → (text_beq s t ≡ true) ↔ (s ≡ t)
unfolding text_beq
text_beq_iff [] [] = ground arith
text_beq_iff [] (b ∷ t) = ground arith
text_beq_iff (a ∷ s) [] = ground arith
text_beq_iff (a ∷ s) (b ∷ t) = ground (arith, text_beq_iff s t)

instance abbrev pub text_eq : Eq Text
text_eq = record { beq = text_beq; beq_iff = text_beq_iff }

-- `s.startswith(p)`
unfoldable pub starts_with : Text → Text → Bool
starts_with s [] = true
starts_with [] (b ∷ p) = false
starts_with (a ∷ s) (b ∷ p) = nat_beq a b && starts_with s p

pub starts_with-append : (p s : Text) → starts_with (p ++ s) p ≡ true
unfolding starts_with
starts_with-append [] s = refl
starts_with-append (a ∷ p) s = ground (arith, starts_with-append p s)

pub starts_with-append_both : (p s q : Text) → starts_with (p ++ s) (p ++ q) ≡ starts_with s q
unfolding starts_with
starts_with-append_both [] s q = refl
starts_with-append_both (a ∷ p) s q = ground (arith, starts_with-append_both p s q)

-- `p in s`
unfoldable pub contains_text : Text → Text → Bool
unfolding starts_with
contains_text [] p = starts_with [] p
contains_text (a ∷ s) p = starts_with (a ∷ s) p || contains_text s p

-- Decimal digits of a number, as `str(n)`; `fuel` above the number is enough.
unfoldable pub digits : ℕ → ℕ → Text
digits zero n = []
digits (suc fuel) n =
    let more = digits fuel (n / 10) ++ (b'0' + n % 10) ∷ [] in
    if ltb n 10 then (b'0' + n) ∷ [] else more

unfoldable pub decimal : ℕ → Text
unfolding digits
decimal n = digits (suc n) n

-- `s.endswith(p)`
abbrev pub ends_with : Text → Text → Bool
ends_with s p = starts_with (reverse s) (reverse p)

-- `s[:n]`
unfoldable pub first : ℕ → Text → Text
first zero s = []
first (suc n) [] = []
first (suc n) (c ∷ s) = c ∷ first n s

-- `s[n:]`
abbrev pub skip : ℕ → Text → Text
skip zero s = s
skip (suc n) [] = []
skip (suc n) (c ∷ s) = skip n s

-- `s.replace(p, "")`, for a p that is not empty and a fuel of the length of s
unfoldable pub without : ℕ → Text → Text → Text
without zero p s = s
without (suc fuel) p [] = []
without (suc fuel) p (c ∷ s) =
    let skipped = without fuel p (skip (length p) (c ∷ s)) in
    let kept = without fuel p s in if starts_with (c ∷ s) p then skipped else c ∷ kept

-- `sep.join(parts)`
unfoldable pub join : Text → List Text → Text
join sep [] = []
join sep (t ∷ []) = t
join sep (t ∷ parts) = t ++ (sep ++ join sep parts)
