-- ===== src/Sandbox/Memory/Words.antt =====
-- Little-endian words in the memory of the emulator.
use sentinel_antivirus.Prelude.{
  ℕ, zero, suc, ◌/◌, ◌%◌, ◌^◌, ◌≡◌, refl, sym, ap, ◌∙◌, arith, nat_eq, pair_eq, length, text_eq,
}
use sentinel_antivirus.Sandbox.Memory.{
  VirtualMemory, pack, unpack, read_bytes, write_u32, read_u32, write_u64, read_u64,
}
use sentinel_antivirus.Sandbox.Memory.Bytes.{IsValid}
use sentinel_antivirus.Sandbox.Memory.Loops.{read_bytes-write_bytes}

pub length-pack : (n val : ℕ) → length (pack n val) ≡ n
unfolding pack
length-pack zero val = refl
length-pack (suc n) val = ap suc (length-pack n (val / 256))

unpack-pack4 : (val : ℕ) → unpack (pack 4 (val % 2 ^ 32)) ≡ val % 2 ^ 32
unfolding pack unpack
unpack-pack4 val = omega arith

unpack-pack8 : (val : ℕ) → unpack (pack 8 (val % 2 ^ 64)) ≡ val % 2 ^ 64
unfolding pack unpack
unpack-pack8 val = omega arith

-- A word of 32 bits that is written is read back modulo 2 ^ 32, and one of 64 bits modulo 2 ^ 64,
-- wherever it lies.
pub read_word-write_word :
    (addr val : ℕ) (m : VirtualMemory)
    → IsValid m
    → (read_u32 addr (write_u32 addr val m) ≡ val % 2 ^ 32)
      × (read_u64 addr (write_u64 addr val m) ≡ val % 2 ^ 64)
unfolding read_u32 write_u32 read_u64 write_u64
read_word-write_word addr val m v = (
  ap (λ n. unpack (read_bytes addr n (write_u32 addr val m))) (sym (length-pack 4 (val % 2 ^ 32)))
      ∙ ap unpack (read_bytes-write_bytes addr (pack 4 (val % 2 ^ 32)) m v)
      ∙ unpack-pack4 val,
  ap (λ n. unpack (read_bytes addr n (write_u64 addr val m))) (sym (length-pack 8 (val % 2 ^ 64)))
      ∙ ap unpack (read_bytes-write_bytes addr (pack 8 (val % 2 ^ 64)) m v)
      ∙ unpack-pack8 val,
)
