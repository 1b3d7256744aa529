-- ===== src/MemoryScanner/Patterns.antt =====
-- `_SHELLCODE_PATTERNS` of sentinel/engine/memory_scanner.py: bytes, and what they are.
use sentinel_antivirus.Prelude.{List, [], ◌∷◌, Text, codes, nat_eq, pair_eq, text_eq}

abbrev pub shellcode_patterns : List (Text × Text)
shellcode_patterns =
    (
      252 ∷ 72 ∷ 131 ∷ 228 ∷ 240 ∷ 232 ∷ [],
      codes "Metasploit x64 reverse stager (cld; and rsp, -16; call)",
    )
    ∷ (
      252 ∷ 232 ∷ 130 ∷ 0 ∷ 0 ∷ 0 ∷ 96 ∷ [],
      codes "Metasploit x86 reverse stager (cld; call; pushad)",
    )
    ∷ (
      252 ∷ 232 ∷ 137 ∷ 0 ∷ 0 ∷ 0 ∷ 96 ∷ [],
      codes "Cobalt Strike / Metasploit x86 stager (cld; call; pushad)",
    )
    ∷ (252 ∷ 72 ∷ 137 ∷ 229 ∷ 72 ∷ 129 ∷ 236 ∷ [], codes "Cobalt Strike Beacon x64 stager prologue")
    ∷ (
      101 ∷ 72 ∷ 139 ∷ 4 ∷ 37 ∷ 96 ∷ 0 ∷ 0 ∷ 0 ∷ [],
      codes "x64 shellcode PEB resolution (mov rax, gs:[0x60])",
    )
    ∷ (
      101 ∷ 72 ∷ 139 ∷ 28 ∷ 37 ∷ 96 ∷ 0 ∷ 0 ∷ 0 ∷ [],
      codes "x64 shellcode PEB resolution (mov rbx, gs:[0x60])",
    )
    ∷ (
      101 ∷ 72 ∷ 139 ∷ 20 ∷ 37 ∷ 96 ∷ 0 ∷ 0 ∷ 0 ∷ [],
      codes "x64 shellcode PEB resolution (mov rdx, gs:[0x60])",
    )
    ∷ (
      101 ∷ 72 ∷ 139 ∷ 12 ∷ 37 ∷ 96 ∷ 0 ∷ 0 ∷ 0 ∷ [],
      codes "x64 shellcode PEB resolution (mov rcx, gs:[0x60])",
    )
    ∷ (
      101 ∷ 72 ∷ 139 ∷ 52 ∷ 37 ∷ 96 ∷ 0 ∷ 0 ∷ 0 ∷ [],
      codes "x64 shellcode PEB resolution (mov rsi, gs:[0x60])",
    )
    ∷ (
      101 ∷ 72 ∷ 139 ∷ 60 ∷ 37 ∷ 96 ∷ 0 ∷ 0 ∷ 0 ∷ [],
      codes "x64 shellcode PEB resolution (mov rdi, gs:[0x60])",
    )
    ∷ (101 ∷ 72 ∷ 139 ∷ 64 ∷ 96 ∷ [], codes "x64 compact shellcode PEB resolution (gs:[rax+0x60])")
    ∷ (101 ∷ 72 ∷ 139 ∷ 82 ∷ 96 ∷ [], codes "x64 compact shellcode PEB resolution (gs:[rdx+0x60])")
    ∷ (100 ∷ 161 ∷ 48 ∷ 0 ∷ 0 ∷ 0 ∷ [], codes "x86 shellcode PEB resolution (mov eax, fs:[0x30])")
    ∷ (
      100 ∷ 139 ∷ 21 ∷ 48 ∷ 0 ∷ 0 ∷ 0 ∷ [],
      codes "x86 shellcode PEB resolution (mov edx, fs:[0x30])",
    )
    ∷ (
      100 ∷ 139 ∷ 13 ∷ 48 ∷ 0 ∷ 0 ∷ 0 ∷ [],
      codes "x86 shellcode PEB resolution (mov ecx, fs:[0x30])",
    )
    ∷ (
      100 ∷ 139 ∷ 29 ∷ 48 ∷ 0 ∷ 0 ∷ 0 ∷ [],
      codes "x86 shellcode PEB resolution (mov ebx, fs:[0x30])",
    )
    ∷ (
      100 ∷ 139 ∷ 53 ∷ 48 ∷ 0 ∷ 0 ∷ 0 ∷ [],
      codes "x86 shellcode PEB resolution (mov esi, fs:[0x30])",
    )
    ∷ (
      102 ∷ 129 ∷ 202 ∷ 255 ∷ 15 ∷ 66 ∷ 82 ∷ 106 ∷ 2 ∷ 88 ∷ 205 ∷ 46 ∷ [],
      codes "Windows NtAccessCheckAndAuditAlarm Syscall egghunter",
    )
    ∷ (
      144 ∷ 144 ∷ 144 ∷ 144 ∷ 144 ∷ 144 ∷ 144 ∷ 144 ∷ 144 ∷ 144 ∷ 144 ∷ 144 ∷ 144 ∷ 144 ∷ 144 ∷ 144
          ∷ [],
      codes "Unbacked execution NOP sled (>= 16 consecutive NOPs)",
    )
    ∷ []
