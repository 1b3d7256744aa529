-- ===== src/Sandbox/Memory/Slices.antt =====
-- Slices of byte strings, and the bytes at their indices.
use sentinel_antivirus.Prelude.{
  ℕ, zero, suc, ◌+◌, ◌-◌, ◌≤◌, ◌<◌, ◌≡◌, refl, sym, ap, ◌∙◌, [], ◌∷◌, ◌++◌, arith, nat_eq, pair_eq,
  length, length-append, Text, text_eq, first, skip,
}

-- `bytearray(n)`
unfoldable pub zeros : ℕ → Text
zeros zero = []
zeros (suc n) = 0 ∷ zeros n

-- `page[off : off + len(chunk)] = chunk`
unfoldable pub splice : ℕ → Text → Text → Text
splice off chunk page = first off page ++ (chunk ++ skip (off + length chunk) page)

-- The byte at an index, 0 behind the end
unfoldable pub nth : ℕ → Text → ℕ
nth i [] = 0
nth zero (b ∷ s) = b
nth (suc i) (b ∷ s) = nth i s

pub nth-zeros : (i n : ℕ) → nth i (zeros n) ≡ 0
unfolding nth zeros
nth-zeros i zero = refl
nth-zeros zero (suc n) = refl
nth-zeros (suc i) (suc n) = nth-zeros i n

pub length-zeros : (n : ℕ) → length (zeros n) ≡ n
unfolding zeros
length-zeros zero = refl
length-zeros (suc n) = ap suc (length-zeros n)

pub nth-skip : (i n : ℕ) (s : Text) → nth i (skip n s) ≡ nth (n + i) s
unfolding nth
nth-skip i zero s = let e : i ≡ 0 + i = omega arith in ap (λ n. nth n s) e
nth-skip i (suc n) [] = refl
nth-skip i (suc n) (c ∷ s) =
    let e : suc (n + i) ≡ suc n + i = omega arith in nth-skip i n s ∙ ap (λ k. nth k (c ∷ s)) e

pub nth-first : (i n : ℕ) (s : Text) → i < n → nth i (first n s) ≡ nth i s
unfolding nth first
nth-first i zero s h = absurd (omega arith)
nth-first i (suc n) [] h = refl
nth-first zero (suc n) (c ∷ s) h = refl
nth-first (suc i) (suc n) (c ∷ s) h = nth-first i n s (omega arith)

pub length-first : (n : ℕ) (s : Text) → n ≤ length s → length (first n s) ≡ n
unfolding first
length-first zero s h = refl
length-first (suc n) [] h = absurd (omega arith)
length-first (suc n) (c ∷ s) h = ap suc (length-first n s (omega arith))

pub length-skip : (n : ℕ) (s : Text) → length (skip n s) ≡ length s - n
length-skip zero s = omega arith
length-skip (suc n) [] = omega arith
length-skip (suc n) (c ∷ s) = omega (arith, length-skip n s)

pub length-splice :
    (off : ℕ) (chunk page : Text)
    → off + length chunk ≤ length page
    → length (splice off chunk page) ≡ length page
unfolding splice
length-splice off chunk page h = omega (
  arith,
  length-append (first off page) (chunk ++ skip (off + length chunk) page),
  length-append chunk (skip (off + length chunk) page),
  length-first off page (omega arith),
  length-skip (off + length chunk) page,
)

nth-append_left : (i : ℕ) (s t : Text) → i < length s → nth i (s ++ t) ≡ nth i s
unfolding nth
nth-append_left i [] t h = absurd (omega arith)
nth-append_left zero (c ∷ s) t h = refl
nth-append_left (suc i) (c ∷ s) t h = nth-append_left i s t (omega arith)

nth-append_right : (i : ℕ) (s t : Text) → nth (length s + i) (s ++ t) ≡ nth i t
unfolding nth
nth-append_right i [] t = let e : 0 + i ≡ i = omega arith in ap (λ n. nth n t) e
nth-append_right i (c ∷ s) t =
    let e : suc (length s) + i ≡ suc (length s + i) = omega arith in
    ap (λ n. nth n (c ∷ s ++ t)) e ∙ nth-append_right i s t

-- A byte before the splice, in it, and behind it
pub nth-splice_before :
    (i off : ℕ) (chunk page : Text)
    → off + length chunk ≤ length page
    → i < off
    → nth i (splice off chunk page) ≡ nth i page
unfolding splice
nth-splice_before i off chunk page h l =
    nth-append_left i (first off page) _ (omega (arith, length-first off page (omega arith)))
    ∙ nth-first i off page l

pub nth-splice_in :
    (i off : ℕ) (chunk page : Text)
    → off + length chunk ≤ length page
    → i < length chunk
    → nth (off + i) (splice off chunk page) ≡ nth i chunk
unfolding splice
nth-splice_in i off chunk page h l =
    ap (λ n. nth (n + i) (splice off chunk page)) (sym (length-first off page (omega arith)))
    ∙ nth-append_right i (first off page) (chunk ++ skip (off + length chunk) page)
    ∙ nth-append_left i chunk (skip (off + length chunk) page) l

pub nth-splice_behind :
    (i off : ℕ) (chunk page : Text)
    → off + length chunk ≤ length page
    → nth (off + (length chunk + i)) (splice off chunk page) ≡ nth (off + length chunk + i) page
unfolding splice
nth-splice_behind i off chunk page h =
    ap (λ n. nth (n + (length chunk + i)) (splice off chunk page))
      (sym (length-first off page (omega arith)))
    ∙ nth-append_right (length chunk + i) (first off page) (chunk ++ skip (off + length chunk) page)
    ∙ nth-append_right i chunk (skip (off + length chunk) page)
    ∙ nth-skip i (off + length chunk) page
