-- ===== src/Sandbox/Memory/Loops.antt =====
-- What the loops of `write_bytes` and `read_bytes` do to the bytes of the memory.
use sentinel_antivirus.Prelude.{
  ℕ, zero, suc, ◌+◌, ◌-◌, ◌≤◌, ◌<◌, ◌≡◌, refl, sym, ap, ◌∙◌, ◌⊎◌, inl, inr, true, false, none, some,
  [], ◌∷◌, ◌++◌, arith, ltb, ◌==◌, nat_eq, pair_eq, Bool-cases, Option-cases, length, is_empty,
  Text, text_eq, first, skip,
}
use sentinel_antivirus.Dict.{lookup}
use sentinel_antivirus.Dict.Entries.{AllEntries-lookup}
use sentinel_antivirus.Sandbox.Memory.Slices.{
  zeros, nth, nth-zeros, length-zeros, nth-skip, nth-first, length-first, length-skip,
}
use sentinel_antivirus.Sandbox.Memory.{
  VirtualMemory, page_base, page_off, write_chunk, chunk_size, write_chunks, write_bytes,
  read_chunk, read_chunks, read_bytes,
}
use sentinel_antivirus.Sandbox.Memory.Bytes.{byte_at, IsValid, Writes, write_chunk-Writes}

is_empty-length : (s : Text) → is_empty s ≡ false → 0 < length s
is_empty-length [] h = absurd (ground arith)
is_empty-length (c ∷ s) h = omega arith

empty-length : (s : Text) → is_empty s ≡ true → length s ≡ 0
empty-length [] h = refl
empty-length (c ∷ s) h = absurd (ground arith)

-- Bytes that are written in two parts
Writes-append :
    (n cur : ℕ) (bytes : Text) (m m1 m2 : VirtualMemory)
    → n ≤ length bytes
    → Writes cur (first n bytes) m m1
    → Writes (cur + n) (skip n bytes) m1 m2
    → Writes cur bytes m m2
Writes-append n cur bytes m m1 m2 fits h k =
    ((λ i l. written i l (Bool-cases (ltb i n))), (λ a o. kept a o), k.2)
  where
    written :
        (i : ℕ)
        → i < length bytes
        → (ltb i n ≡ true) ⊎ (ltb i n ≡ false)
        → byte_at (cur + i) m2 ≡ nth i bytes
    written i l (inl early) =
        let before : i < n = ground arith in
        k.1 (cur + i) (inl (omega arith))
        ∙ h.0 i (omega (arith, length-first n bytes fits))
        ∙ nth-first i n bytes before
    written i l (inr late) =
        let after : n ≤ i = ground arith in
        let e : cur + i ≡ cur + n + (i - n) = omega arith in
        let e' : n + (i - n) ≡ i = omega arith in
        ap (λ a. byte_at a m2) e
        ∙ k.0 (i - n) (omega (arith, length-skip n bytes))
        ∙ nth-skip (i - n) n bytes
        ∙ ap (λ j. nth j bytes) e'

    kept : (a : ℕ) → (a < cur) ⊎ (cur + length bytes ≤ a) → byte_at a m2 ≡ byte_at a m
    kept a (inl o) = k.1 a (inl (omega arith)) ∙ h.1 a (inl o)
    kept a (inr o) =
        k.1 a (inr (omega (arith, length-skip n bytes)))
        ∙ h.1 a (inr (omega (arith, length-first n bytes fits)))

write_chunks-Writes :
    (fuel cur : ℕ) (bytes : Text) (m : VirtualMemory)
    → IsValid m
    → length bytes ≤ fuel
    → Writes cur bytes m (write_chunks fuel cur bytes m)
unfolding write_chunks
write_chunks-Writes zero cur bytes m v f = ((λ i l. absurd (omega arith)), (λ a o. refl), v)
write_chunks-Writes (suc fuel) cur bytes m v f = elim (Bool-cases (is_empty bytes)) [
  | inl none_left ↦
      rw (write_chunks, none_left)
        ((λ i l. absurd (omega (arith, empty-length bytes none_left))), (λ a o. refl), v)
  | inr some_left ↦
      let n = chunk_size cur (length bytes) in
      let size = length-first n bytes (omega arith) in
      let one = write_chunk-Writes cur (first n bytes) m v (omega (arith, size)) in
      let rest =
        write_chunks-Writes fuel (cur + n) (skip n bytes) (write_chunk cur (first n bytes) m) one.2
          (omega (arith, is_empty-length bytes some_left, length-skip n bytes)) in
      rw (write_chunks, some_left)
        (Writes-append n cur bytes m (write_chunk cur (first n bytes) m) _ (omega arith) one rest)
]

-- `write_bytes` puts the bytes at the addresses from `addr` on, changes no other byte, and keeps
-- every page at its size.
pub write_bytes-Writes :
    (addr : ℕ) (bytes : Text) (m : VirtualMemory)
    → IsValid m
    → Writes addr bytes m (write_bytes addr bytes m)
unfolding write_bytes
write_bytes-Writes addr bytes m v = write_chunks-Writes (length bytes) addr bytes m v (omega arith)

-- The bytes at n addresses in a row
unfoldable pub bytes_from : ℕ → ℕ → VirtualMemory → Text
bytes_from a zero m = []
bytes_from a (suc n) m = byte_at a m ∷ bytes_from (a + 1) n m

nth-ext : (s t : Text) → length s ≡ length t → ((i : ℕ) → i < length s → nth i s ≡ nth i t) → s ≡ t
unfolding nth
nth-ext [] [] e h = refl
nth-ext [] (c ∷ t) e h = absurd (omega arith)
nth-ext (b ∷ s) [] e h = absurd (omega arith)
nth-ext (b ∷ s) (c ∷ t) e h =
    let head : b ≡ c = h 0 (omega arith) in
    let tail = nth-ext s t (omega arith) (λ i l. h (suc i) (omega arith)) in rw (head, tail) refl

length-bytes_from : (a n : ℕ) (m : VirtualMemory) → length (bytes_from a n m) ≡ n
unfolding bytes_from
length-bytes_from a zero m = refl
length-bytes_from a (suc n) m = ap suc (length-bytes_from (a + 1) n m)

nth-bytes_from :
    (i a n : ℕ) (m : VirtualMemory) → i < n → nth i (bytes_from a n m) ≡ byte_at (a + i) m
unfolding bytes_from nth
nth-bytes_from i a zero m l = absurd (omega arith)
nth-bytes_from zero a (suc n) m l = let e : a ≡ a + 0 = omega arith in ap (λ j. byte_at j m) e
nth-bytes_from (suc i) a (suc n) m l =
    let e : a + 1 + i ≡ a + suc i = omega arith in
    nth-bytes_from i (a + 1) n m (omega arith) ∙ ap (λ j. byte_at j m) e

bytes_from-append :
    (a n k : ℕ) (m : VirtualMemory)
    → bytes_from a (n + k) m ≡ bytes_from a n m ++ bytes_from (a + n) k m
unfolding bytes_from
bytes_from-append a zero k m =
    let e : 0 + k ≡ k = omega arith in
    let e' : a ≡ a + 0 = omega arith in ap (λ j. bytes_from a j m) e ∙ ap (λ j. bytes_from j k m) e'
bytes_from-append a (suc n) k m =
    let e : suc n + k ≡ suc (n + k) = omega arith in
    let e' : a + 1 + n ≡ a + suc n = omega arith in
    ap (λ j. bytes_from a j m) e
    ∙ ap (λ s. byte_at a m ∷ s)
        (bytes_from-append (a + 1) n k m ∙ ap (λ j. bytes_from (a + 1) n m ++ bytes_from j k m) e')

byte_at-gone : (a : ℕ) (m : VirtualMemory) → lookup (page_base a) m.pages ≡ none → byte_at a m ≡ 0
unfolding byte_at
byte_at-gone a m gone = rw (byte_at, gone) refl

byte_at-there :
    (a : ℕ) (m : VirtualMemory) {page : Text}
    → lookup (page_base a) m.pages ≡ some page
    → byte_at a m ≡ nth (page_off a) page
unfolding byte_at
byte_at-there a m there = rw (byte_at, there) refl

read_chunk-bytes_from :
    (cur n : ℕ) (m : VirtualMemory)
    → IsValid m
    → page_off cur + n ≤ 4096
    → read_chunk cur n m ≡ bytes_from cur n m
unfolding read_chunk
read_chunk-bytes_from cur n m v fits = elim (Option-cases (lookup (page_base cur) m.pages)) [
  | inl gone ↦
      rw (read_chunk, gone)
        (nth-ext (zeros n) (bytes_from cur n m) (length-zeros n ∙ sym (length-bytes_from cur n m))
          (λ i l.
            let inside : i < n = omega (arith, length-zeros n) in
            let base : page_base (cur + i) ≡ page_base cur = omega arith in
            nth-zeros i n
            ∙ sym (
                nth-bytes_from i cur n m inside
                ∙ byte_at-gone (cur + i) m (ap (λ p. lookup p m.pages) base ∙ gone))))
  | inr (page, there) ↦
      let full = AllEntries-lookup (λ q s. length s ≡ 4096) (page_base cur) m.pages v there in
      let off = page_off cur in
      let size : length (first n (skip off page)) ≡ n =
        length-first n (skip off page) (omega (arith, length-skip off page, full)) in
      rw (read_chunk, there)
        (nth-ext (first n (skip off page)) (bytes_from cur n m)
          (size ∙ sym (length-bytes_from cur n m))
          (λ i l.
            let inside : i < n = omega (arith, size) in
            let base : page_base (cur + i) ≡ page_base cur = omega arith in
            let index : page_off cur + i ≡ page_off (cur + i) = omega arith in
            nth-first i n (skip off page) inside
            ∙ nth-skip i off page
            ∙ ap (λ j. nth j page) index
            ∙ sym (
                nth-bytes_from i cur n m inside
                ∙ byte_at-there (cur + i) m {page = page}
                    (ap (λ p. lookup p m.pages) base ∙ there))))
]

read_chunks-bytes_from :
    (fuel cur remaining : ℕ) (m : VirtualMemory)
    → IsValid m
    → remaining ≤ fuel
    → read_chunks fuel cur remaining m ≡ bytes_from cur remaining m
unfolding read_chunks
read_chunks-bytes_from zero cur remaining m v f =
    let e : 0 ≡ remaining = omega arith in unfold bytes_from in ap (λ j. bytes_from cur j m) e
read_chunks-bytes_from (suc fuel) cur remaining m v f = elim (Bool-cases (remaining == 0)) [
  | inl done ↦
      let e : 0 ≡ remaining = ground arith in
      rw (read_chunks, done) (unfold bytes_from in ap (λ j. bytes_from cur j m) e)
  | inr more ↦
      let n = chunk_size cur remaining in
      let e : n + (remaining - n) ≡ remaining = omega arith in
      let positive : 0 < remaining = ground arith in
      rw
        (
          read_chunks,
          more,
          read_chunk-bytes_from cur n m v (omega arith),
          read_chunks-bytes_from fuel (cur + n) (remaining - n) m v (omega arith),
        )
        (sym (bytes_from-append cur n (remaining - n) m) ∙ ap (λ j. bytes_from cur j m) e)
]

-- `read_bytes` gives the bytes at the addresses from `addr` on, whatever pages they lie in.
pub read_bytes_lem :
    (addr size : ℕ) (m : VirtualMemory)
    → IsValid m
    → read_bytes addr size m ≡ bytes_from addr size m
unfolding read_bytes
read_bytes_lem addr size m v = read_chunks-bytes_from size addr size m v (omega arith)

-- What is written is read back, also over the bounds of pages.
pub read_bytes-write_bytes :
    (addr : ℕ) (bytes : Text) (m : VirtualMemory)
    → IsValid m
    → read_bytes addr (length bytes) (write_bytes addr bytes m) ≡ bytes
read_bytes-write_bytes addr bytes m v =
    let w = write_bytes-Writes addr bytes m v in
    let m' = write_bytes addr bytes m in
    let n = length bytes in
    read_bytes_lem addr n m' w.2
    ∙ nth-ext (bytes_from addr n m') bytes (length-bytes_from addr n m') (λ i l.
      let inside : i < n = omega (arith, length-bytes_from addr n m') in
      nth-bytes_from i addr n m' inside ∙ w.0 i inside)
