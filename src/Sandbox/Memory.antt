-- ===== src/Sandbox/Memory.antt =====
-- `VirtualMemory` of sentinel/sandbox/emulator.py: pages of 4096 bytes that are made when they are
-- written. Addresses are not negative.
pub mod Slices
pub mod Bytes
pub mod Loops
pub mod Words
use sentinel_antivirus.Prelude.{
  ℕ, zero, suc, ◌+◌, ◌-◌, ◌*◌, ◌/◌, ◌%◌, ◌^◌, min, max, Bool, none, some, List, [], ◌∷◌, ◌++◌,
  if◌then◌else◌, ◌==◌, nat_eq, length, is_empty, Text, codes, text_eq, first, skip,
}
use sentinel_antivirus.Dict.{Dict, lookup, has_key, insert, add}
use sentinel_antivirus.Sandbox.Memory.Slices.{splice, zeros}

pub record VirtualMemory : Type 0 where
  pub is_64bit : Bool
  pub pages : Dict ℕ Text
  pub permissions : Dict ℕ Text
  pub written_pages : List ℕ

-- `VirtualMemory(is_64bit)`; its `mask` is never read.
abbrev pub new_memory : Bool → VirtualMemory
new_memory is_64bit = record {
  is_64bit = is_64bit;
  pages = [];
  permissions = [];
  written_pages = [];
}

-- `_page_base`, and the offset in the page
abbrev pub page_base : ℕ → ℕ
page_base addr = addr - addr % 4096

abbrev pub page_off : ℕ → ℕ
page_off addr = addr % 4096

-- One page of `alloc`: a page that is there stays as it is.
unfoldable pub alloc_page : ℕ → Text → VirtualMemory → VirtualMemory
alloc_page p prot m = if has_key p m.pages then m else record m {
  pages = insert p (zeros 4096) m.pages;
  permissions = insert p prot m.permissions;
}

unfoldable pub alloc_pages : ℕ → ℕ → Text → VirtualMemory → VirtualMemory
unfolding alloc_page
alloc_pages zero p prot m = m
alloc_pages (suc n) p prot m = alloc_pages n (p + 4096) prot (alloc_page p prot m)

-- `alloc`
unfoldable pub alloc : ℕ → ℕ → Text → VirtualMemory → VirtualMemory
unfolding alloc_pages
alloc addr size prot m = alloc_pages (max 1 ((size + 4095) / 4096)) (page_base addr) prot m

-- A page that is there
abbrev pub page_of : ℕ → VirtualMemory → Text
page_of p m = elim (lookup p m.pages) [ none ↦ zeros 4096 | some page ↦ page ]

-- One round of `write_bytes`: a chunk that lies in one page
unfoldable pub write_chunk : ℕ → Text → VirtualMemory → VirtualMemory
write_chunk cur chunk m =
    let p = page_base cur in
    let made = if has_key p m.pages then m else alloc p 4096 (codes "RWX") m in
    record made {
      pages = insert p (splice (page_off cur) chunk (page_of p made)) made.pages;
      written_pages = add p made.written_pages;
    }

abbrev pub chunk_size : ℕ → ℕ → ℕ
chunk_size cur left = min left (4096 - page_off cur)

-- The loop of `write_bytes`, on fuel: each round writes a byte or more.
unfoldable pub write_chunks : ℕ → ℕ → Text → VirtualMemory → VirtualMemory
write_chunks zero cur bytes m = m
write_chunks (suc fuel) cur bytes m =
    let n = chunk_size cur (length bytes) in
    let rest = write_chunks fuel (cur + n) (skip n bytes) (write_chunk cur (first n bytes) m) in
    if is_empty bytes then m else rest

-- `write_bytes`
unfoldable pub write_bytes : ℕ → Text → VirtualMemory → VirtualMemory
unfolding write_chunks
write_bytes addr bytes m = write_chunks (length bytes) addr bytes m

-- One round of `read_bytes`: a page that is not there reads as zeros.
unfoldable pub read_chunk : ℕ → ℕ → VirtualMemory → Text
read_chunk cur n m = elim (lookup (page_base cur) m.pages) [
  | none ↦ zeros n
  | some page ↦ first n (skip (page_off cur) page)
]

unfoldable pub read_chunks : ℕ → ℕ → ℕ → VirtualMemory → Text
unfolding read_chunk
read_chunks zero cur remaining m = []
read_chunks (suc fuel) cur remaining m =
    let n = chunk_size cur remaining in
    let rest = read_chunks fuel (cur + n) (remaining - n) m in
    if remaining == 0 then [] else read_chunk cur n m ++ rest

-- `read_bytes`
unfoldable pub read_bytes : ℕ → ℕ → VirtualMemory → Text
unfolding read_chunks
read_bytes addr size m = read_chunks size addr size m

-- `struct.pack` and `struct.unpack` of a little-endian number with so many bytes
unfoldable pub pack : ℕ → ℕ → Text
pack zero val = []
pack (suc n) val = val % 256 ∷ pack n (val / 256)

unfoldable pub unpack : Text → ℕ
unpack [] = 0
unpack (b ∷ bytes) = b + 256 * unpack bytes

-- `write_u32`, `read_u32`, `write_u64` and `read_u64`
unfoldable pub write_u32 : ℕ → ℕ → VirtualMemory → VirtualMemory
unfolding pack
write_u32 addr val m = write_bytes addr (pack 4 (val % 2 ^ 32)) m

unfoldable pub read_u32 : ℕ → VirtualMemory → ℕ
unfolding unpack
read_u32 addr m = unpack (read_bytes addr 4 m)

unfoldable pub write_u64 : ℕ → ℕ → VirtualMemory → VirtualMemory
unfolding pack
write_u64 addr val m = write_bytes addr (pack 8 (val % 2 ^ 64)) m

unfoldable pub read_u64 : ℕ → VirtualMemory → ℕ
unfolding unpack
read_u64 addr m = unpack (read_bytes addr 8 m)
