-- ===== src/Examples/Sandbox.antt =====
-- Words over the bound of a page, and a hash that shellcode uses.
use sentinel_antivirus.Prelude.{◌≡◌, refl, true, nat_eq, pair_eq, codes, text_eq}
use sentinel_antivirus.Sandbox.Memory.{
  VirtualMemory, new_memory, write_bytes, write_u32, read_u32, write_u64, read_u64,
}
use sentinel_antivirus.Sandbox.Memory.Bytes.{Writes}
use sentinel_antivirus.Sandbox.Memory.Loops.{write_bytes-Writes}
use sentinel_antivirus.Sandbox.Memory.Words.{read_word-write_word}
use sentinel_antivirus.Sandbox.Emulator.{ror13}

abbrev memory : VirtualMemory
memory = new_memory true

write_bytes-Writes_example : Writes 4095 (codes "MZ") memory (write_bytes 4095 (codes "MZ") memory)
write_bytes-Writes_example = write_bytes-Writes 4095 (codes "MZ") memory tt

read_word-write_word_example :
    (read_u32 4094 (write_u32 4094 4294967297 memory) ≡ 1)
    × (read_u64 4094 (write_u64 4094 4294967297 memory) ≡ 4294967297)
read_word-write_word_example = read_word-write_word 4094 4294967297 memory tt

-- The hash that shellcode uses for LoadLibraryA, in this variant without the name of the module
ror13-LoadLibraryA : ror13 (codes "LoadLibraryA") ≡ 3960360590
unfolding ror13
ror13-LoadLibraryA = refl
