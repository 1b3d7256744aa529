-- ===== src/MemoryScanner/Header.antt =====
-- Which bytes of a sample the check of a PE header reads.
use sentinel_antivirus.Prelude.{
  ℕ, zero, suc, ◌+◌, ◌-◌, ◌≤◌, ◌<◌, min, ◌≡◌, refl, sym, ap, ◌∙◌, true, false, List, [], ◌∷◌, ◌++◌,
  arith, ltb, leb, nat_eq, pair_eq, beq_refl, length, length-append, Text, codes, text_eq,
  starts_with, starts_with-append, first, skip,
}
use sentinel_antivirus.Dict.{member}
use mathlib.Core.List.{append_assoc}
use sentinel_antivirus.Sandbox.Memory.{pack, unpack}
use sentinel_antivirus.Sandbox.Memory.Words.{length-pack}
use sentinel_antivirus.MemoryScanner.Region.{check_reflective_pe}

skip-append : (n : ℕ) (s t : Text) → length s ≡ n → skip n (s ++ t) ≡ t
skip-append zero [] t h = refl
skip-append zero (c ∷ s) t h = absurd (omega arith)
skip-append (suc n) [] t h = absurd (omega arith)
skip-append (suc n) (c ∷ s) t h = skip-append n s t (omega arith)

first-append : (n : ℕ) (s t : Text) → length s ≡ n → first n (s ++ t) ≡ s
unfolding first
first-append zero [] t h = refl
first-append zero (c ∷ s) t h = absurd (omega arith)
first-append (suc n) [] t h = absurd (omega arith)
first-append (suc n) (c ∷ s) t h = ap (λ r. c ∷ r) (first-append n s t (omega arith))

field_at :
    (n k : ℕ) (s f t : Text) → length s ≡ n → length f ≡ k → first k (skip n (s ++ (f ++ t))) ≡ f
field_at n k s f t h e = rw (skip-append n s (f ++ t) h) (first-append k f t e)

-- The machines that count: i386, x64 and arm64
abbrev pub machines : List ℕ
machines = 0x014C ∷ 0x8664 ∷ 0xAA64 ∷ []

abbrev pe_mark : Text
pe_mark = 80 ∷ 69 ∷ 0 ∷ 0 ∷ []

-- A sample with a DOS header, the pointer to the PE header at its place, and the PE header where it
-- points
abbrev pub pe_sample : Text → Text → ℕ → Text → Text
pe_sample pad stub machine rest =
    (codes "MZ" ++ pad)
    ++ (pack 4 (64 + length stub) ++ (stub ++ (pe_mark ++ (pack 2 machine ++ rest))))

unpack-pack : (v : ℕ) → v < 65536 → (unpack (pack 2 v) ≡ v) × (unpack (pack 4 v) ≡ v)
unfolding pack unpack
unpack-pack v h = omega arith

le_true : (a b : ℕ) → a ≤ b → leb a b ≡ true
le_true a b h = ground arith

check_by_fields :
    (sample : Text) (e machine : ℕ)
    → starts_with sample (codes "MZ") ≡ true
    → unpack (first 4 (skip 60 sample)) ≡ e
    → first 4 (skip e sample) ≡ pe_mark
    → unpack (first 2 (skip (e + 4) sample)) ≡ machine
    → 64 ≤ e
    → e ≤ 4096
    → e + 6 ≤ length sample
    → check_reflective_pe sample ≡ member machine machines
unfolding check_reflective_pe
check_by_fields sample e machine mz at60 mark at4 low high room =
    rw
      (
        long_enough,
        mz,
        at60,
        le_true 64 e low,
        le_true e (min (length sample - 4) 4096) (omega arith),
        mark,
        beq_refl text_eq pe_mark,
        le_true (e + 6) (length sample) room,
        at4,
      )
      refl
  where
    long_enough : ltb (length sample) 64 ≡ false
    long_enough = ground arith

-- A header that is laid out as it should be, with its PE header in the first 4096 bytes, is found
-- exactly when the machine is one that counts, whatever the bytes of the stub and behind it.
pub check_reflective_pe-pe_sample :
    (pad stub : Text) (machine : ℕ) (rest : Text)
    → length pad ≡ 58
    → 64 + length stub ≤ 4096
    → machine < 65536
    → check_reflective_pe (pe_sample pad stub machine rest) ≡ member machine machines
check_reflective_pe-pe_sample pad stub machine rest p s m =
    let start = codes "MZ" ++ pad in
    let n = 64 + length stub in
    let sample = pe_sample pad stub machine rest in
    let tail = pe_mark ++ (pack 2 machine ++ rest) in
    let before = start ++ (pack 4 n ++ stub) in
    let len4 = length-pack 4 n in
    let length-before : length before ≡ n =
      omega
        (arith, length-append start (pack 4 n ++ stub), length-append (pack 4 n) stub, len4, p) in
    let at_before : sample ≡ before ++ tail =
      ap (λ t. start ++ t) (sym (append_assoc (pack 4 n) stub tail))
      ∙ sym (append_assoc start (pack 4 n ++ stub) tail) in
    let at_mark : sample ≡ (before ++ pe_mark) ++ (pack 2 machine ++ rest) =
      at_before ∙ sym (append_assoc before pe_mark (pack 2 machine ++ rest)) in
    check_by_fields sample n machine (starts_with-append (codes "MZ") _)
      (ap unpack (field_at 60 4 start (pack 4 n) (stub ++ tail) (omega (arith, p)) len4)
        ∙ (unpack-pack n (omega arith)).1)
      (rw at_before (field_at n 4 before pe_mark (pack 2 machine ++ rest) length-before refl))
      (ap unpack (
          rw at_mark (
            field_at (n + 4) 2 (before ++ pe_mark) (pack 2 machine) rest
              (omega (arith, length-append before pe_mark, length-before)) (length-pack 2 machine)))
        ∙ (unpack-pack machine m).0)
      (omega arith) s
      (omega (
        arith,
        ap length at_mark,
        length-append (before ++ pe_mark) (pack 2 machine ++ rest),
        length-append before pe_mark,
        length-append (pack 2 machine) rest,
        length-pack 2 machine,
        length-before,
      ))
