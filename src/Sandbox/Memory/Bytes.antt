-- ===== src/Sandbox/Memory/Bytes.antt =====
-- The memory as a function from addresses to bytes, and what `write_bytes` and `read_bytes` are on
-- it.
use sentinel_antivirus.Prelude.{
  ℕ, zero, suc, ◌+◌, ◌-◌, ◌/◌, ◌≤◌, ◌<◌, max, ◌≡◌, refl, ap, ◌∙◌, ◌⊎◌, inl, inr, Bool, true, false,
  none, some, List, arith, if◌then◌else◌, ◌==◌, nat_eq, pair_eq, Bool-cases, Option-cases, length,
  Text, codes, text_eq,
}
use sentinel_antivirus.Dict.{lookup, has_key, insert, lookup-insert}
use sentinel_antivirus.Dict.Entries.{AllEntries, AllEntries-insert, AllEntries-lookup}
use sentinel_antivirus.Sandbox.Memory.Slices.{
  splice, zeros, nth, nth-zeros, length-zeros, length-splice, nth-splice_before, nth-splice_in,
  nth-splice_behind,
}
use sentinel_antivirus.Sandbox.Memory.{
  VirtualMemory, page_base, page_off, alloc_page, alloc_pages, alloc, page_of, write_chunk,
}

-- The byte at an address; a page that is not there has zeros.
unfoldable pub byte_at : ℕ → VirtualMemory → ℕ
byte_at a m = elim (lookup (page_base a) m.pages) [ none ↦ 0 | some page ↦ nth (page_off a) page ]

-- Every page has its 4096 bytes.
abbrev pub IsValid : VirtualMemory → Type 0
IsValid m = AllEntries (λ p page. length page ≡ 4096) m.pages

-- The memory reads the same, and is valid still.
abbrev Same : VirtualMemory → VirtualMemory → Type 0
Same m m' = ((a : ℕ) → byte_at a m' ≡ byte_at a m) × (IsValid m → IsValid m')

alloc_page-Same : (p : ℕ) (prot : Text) (m : VirtualMemory) → Same m (alloc_page p prot m)
unfolding alloc_page byte_at
alloc_page-Same p prot m = elim (Option-cases (lookup p m.pages)) [
  | inr (page, there) ↦ rw (alloc_page, has_key, there) ((λ a. refl), λ v. v)
  | inl new ↦
      rw (alloc_page, has_key, new)
        (
          (λ a. elim (Bool-cases (p == page_base a)) [
            | inl same ↦
                rw
                  (
                    byte_at,
                    lookup-insert p (page_base a) (zeros 4096) m.pages,
                    same,
                    ← (nat_eq.beq_iff p (page_base a)).0 same,
                    new,
                  )
                  (nth-zeros (page_off a) 4096)
            | inr other ↦
                rw (byte_at, lookup-insert p (page_base a) (zeros 4096) m.pages, other) refl
          ]),
          λ v.
              AllEntries-insert (λ q page. length page ≡ 4096) p (zeros 4096) m.pages
                (length-zeros 4096) v,
        )
]

alloc_pages-Same : (n p : ℕ) (prot : Text) (m : VirtualMemory) → Same m (alloc_pages n p prot m)
unfolding alloc_pages
alloc_pages-Same zero p prot m = ((λ a. refl), λ v. v)
alloc_pages-Same (suc n) p prot m =
    let one = alloc_page-Same p prot m in
    let rest = alloc_pages-Same n (p + 4096) prot (alloc_page p prot m) in
    ((λ a. rest.0 a ∙ one.0 a), λ v. rest.1 (one.1 v))

-- `alloc` changes no byte.
pub alloc-Same : (addr size : ℕ) (prot : Text) (m : VirtualMemory) → Same m (alloc addr size prot m)
unfolding alloc
alloc-Same addr size prot m =
    alloc_pages-Same (max 1 ((size + 4095) / 4096)) (page_base addr) prot m

page_of-byte_at :
    (a : ℕ) (m : VirtualMemory) → nth (page_off a) (page_of (page_base a) m) ≡ byte_at a m
unfolding byte_at
page_of-byte_at a m = elim (Option-cases (lookup (page_base a) m.pages)) [
  | inl gone ↦ rw (byte_at, page_of, gone) (nth-zeros (page_off a) 4096)
  | inr (page, there) ↦ rw (byte_at, page_of, there) refl
]

length-page_of : (p : ℕ) (m : VirtualMemory) → IsValid m → length (page_of p m) ≡ 4096
length-page_of p m v = elim (Option-cases (lookup p m.pages)) [
  | inl gone ↦ rw (page_of, gone) (length-zeros 4096)
  | inr (page, there) ↦
      rw (page_of, there) (AllEntries-lookup (λ q s. length s ≡ 4096) p m.pages v there)
]

-- Some bytes at an address, and all others as they were
abbrev pub Writes : ℕ → Text → VirtualMemory → VirtualMemory → Type 0
Writes addr bytes m m' =
    ((i : ℕ) → i < length bytes → byte_at (addr + i) m' ≡ nth i bytes)
    × ((a : ℕ) → (a < addr) ⊎ (addr + length bytes ≤ a) → byte_at a m' ≡ byte_at a m)
    × IsValid m'

Same-if : (t : Bool) (m x y : VirtualMemory) → Same m x → Same m y → Same m (if t then x else y)
Same-if true m x y h k = h
Same-if false m x y h k = k

-- A page with a chunk in it
abbrev patched : ℕ → Text → VirtualMemory → Text
patched cur chunk m = splice (page_off cur) chunk (page_of (page_base cur) m)

abbrev put : ℕ → Text → List ℕ → VirtualMemory → VirtualMemory
put cur chunk written m = record m {
  pages = insert (page_base cur) (patched cur chunk m) m.pages;
  written_pages = written;
}

byte_at-put_same :
    (a cur : ℕ) (chunk : Text) (written : List ℕ) (m : VirtualMemory)
    → page_base cur ≡ page_base a
    → byte_at a (put cur chunk written m) ≡ nth (page_off a) (patched cur chunk m)
unfolding byte_at
byte_at-put_same a cur chunk written m e =
    rw
      (
        byte_at,
        lookup-insert (page_base cur) (page_base a) (patched cur chunk m) m.pages,
        (nat_eq.beq_iff (page_base cur) (page_base a)).1 e,
      )
      refl

byte_at-put_other :
    (a cur : ℕ) (chunk : Text) (written : List ℕ) (m : VirtualMemory)
    → (page_base cur == page_base a) ≡ false
    → byte_at a (put cur chunk written m) ≡ byte_at a m
unfolding byte_at
byte_at-put_other a cur chunk written m e =
    rw (byte_at, lookup-insert (page_base cur) (page_base a) (patched cur chunk m) m.pages, e) refl

put-in :
    (i cur : ℕ) (chunk : Text) (written : List ℕ) (m : VirtualMemory)
    → IsValid m
    → page_off cur + length chunk ≤ 4096
    → i < length chunk
    → byte_at (cur + i) (put cur chunk written m) ≡ nth i chunk
put-in i cur chunk written m v fits l =
    let base : page_base cur ≡ page_base (cur + i) = omega arith in
    let off : page_off (cur + i) ≡ page_off cur + i = omega arith in
    let room : page_off cur + length chunk ≤ length (page_of (page_base cur) m) =
      omega (arith, length-page_of (page_base cur) m v) in
    byte_at-put_same (cur + i) cur chunk written m base
    ∙ ap (λ k. nth k (patched cur chunk m)) off
    ∙ nth-splice_in i (page_off cur) chunk (page_of (page_base cur) m) room l

nth-patched :
    (k cur : ℕ) (chunk : Text) (m : VirtualMemory)
    → IsValid m
    → page_off cur + length chunk ≤ 4096
    → (k < page_off cur) ⊎ (page_off cur + length chunk ≤ k)
    → nth k (patched cur chunk m) ≡ nth k (page_of (page_base cur) m)
nth-patched k cur chunk m v fits (inl before) =
    nth-splice_before k (page_off cur) chunk (page_of (page_base cur) m)
      (omega (arith, length-page_of (page_base cur) m v)) before
nth-patched k cur chunk m v fits (inr behind) =
    let n = length chunk in
    let off = page_off cur in
    let e : k ≡ off + (n + (k - off - n)) = omega arith in
    let e' : off + n + (k - off - n) ≡ k = omega arith in
    ap (λ j. nth j (patched cur chunk m)) e
    ∙ nth-splice_behind (k - off - n) off chunk (page_of (page_base cur) m)
        (omega (arith, length-page_of (page_base cur) m v))
    ∙ ap (λ j. nth j (page_of (page_base cur) m)) e'

put-out :
    (a cur : ℕ) (chunk : Text) (written : List ℕ) (m : VirtualMemory)
    → IsValid m
    → page_off cur + length chunk ≤ 4096
    → (a < cur) ⊎ (cur + length chunk ≤ a)
    → byte_at a (put cur chunk written m) ≡ byte_at a m
put-out a cur chunk written m v fits o = elim (Bool-cases (page_base cur == page_base a)) [
  | inr other ↦ byte_at-put_other a cur chunk written m other
  | inl same ↦
      let base = (nat_eq.beq_iff (page_base cur) (page_base a)).0 same in
      byte_at-put_same a cur chunk written m base
      ∙ nth-patched (page_off a) cur chunk m v fits (in_page a cur (length chunk) base o)
      ∙ ap (λ p. nth (page_off a) (page_of p m)) base
      ∙ page_of-byte_at a m
]
  where
    in_page :
        (a cur n : ℕ)
        → page_base cur ≡ page_base a
        → (a < cur) ⊎ (cur + n ≤ a)
        → (page_off a < page_off cur) ⊎ (page_off cur + n ≤ page_off a)
    in_page a cur n e (inl h) = inl (omega arith)
    in_page a cur n e (inr h) = inr (omega arith)

put-Writes :
    (cur : ℕ) (chunk : Text) (written : List ℕ) (m : VirtualMemory)
    → IsValid m
    → page_off cur + length chunk ≤ 4096
    → Writes cur chunk m (put cur chunk written m)
put-Writes cur chunk written m v fits =
    let size = length-page_of (page_base cur) m v in
    (
      (λ i l. put-in i cur chunk written m v fits l),
      (λ a o. put-out a cur chunk written m v fits o),
      AllEntries-insert (λ p page. length page ≡ 4096) (page_base cur) (patched cur chunk m) m.pages
          (length-splice (page_off cur) chunk (page_of (page_base cur) m) (omega (arith, size))
            ∙ size)
          v,
    )

Writes-Same :
    (addr : ℕ) (bytes : Text) (m w m' : VirtualMemory)
    → Same m w
    → Writes addr bytes w m'
    → Writes addr bytes m m'
Writes-Same addr bytes m w m' s h = (h.0, (λ a o. h.1 a o ∙ s.0 a), h.2)

pub write_chunk-Writes :
    (cur : ℕ) (chunk : Text) (m : VirtualMemory)
    → IsValid m
    → page_off cur + length chunk ≤ 4096
    → Writes cur chunk m (write_chunk cur chunk m)
unfolding write_chunk
write_chunk-Writes cur chunk m v fits =
    let p = page_base cur in
    let w = if has_key p m.pages then m else alloc p 4096 (codes "RWX") m in
    let s =
      Same-if (has_key p m.pages) m m (alloc p 4096 (codes "RWX") m) ((λ a. refl), λ v. v)
        (alloc-Same p 4096 (codes "RWX") m) in
    Writes-Same cur chunk m w _ s (put-Writes cur chunk _ w (s.1 v) fits)
