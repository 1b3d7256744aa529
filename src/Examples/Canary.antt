-- ===== src/Examples/Canary.antt =====
-- The canaries of one directory, armed, encrypted and repaired.
use sentinel_antivirus.Prelude.{
  ℕ, ◌-◌, ◌/◌, ◌≡◌, refl, true, false, List, [], ◌∷◌, arith, if◌then◌else◌, ◌==◌, nat_eq, pair_eq,
  length, is_empty, All, Text, codes, text_beq, text_eq,
}
use sentinel_antivirus.Dict.{lookup, has_key}
use sentinel_antivirus.Canary.Templates.{CanaryTemplate}
use sentinel_antivirus.Canary.{
  CanaryTrap, System, Manager, norm, trap_at, check_tampering, verify_all_canaries, repair_canaries,
  arm_traps,
}
use sentinel_antivirus.Canary.Arming.{arm_traps-IsValid}
use sentinel_antivirus.Canary.Repair.{IsValid, repair_canaries-clean}

-- Paths are file names after the letter of the directory.
abbrev name_of : Text → Text
name_of [] = []
name_of (c ∷ name) = name

abbrev never_empty : Text → Text
never_empty [] = b'/' ∷ []
never_empty (c ∷ path) = c ∷ path

abbrev system : System
system = record {
  resolve = never_empty;
  file_name = name_of;
  in_directory = λ d n. b'd' ∷ n;
  lower = λ t. t;
  sha256_hex = λ b. b;
  directory_denied = λ d. false;
  write_denied = λ p. false;
  read_denied = λ p. false;
  unlink_denied = λ p. false;
}

abbrev note : CanaryTemplate
note = record {
  filename = codes "!00_n.pdf";
  extension = codes ".pdf";
  sample_content = codes "pdf";
}

abbrev sheet : CanaryTemplate
sheet = record {
  filename = codes "!00_s.xlsx";
  extension = codes ".xlsx";
  sample_content = codes "xl";
}

abbrev templates : List CanaryTemplate
templates = note ∷ sheet ∷ []

abbrev document : Text → Text
document name = if name == codes "!00_n.pdf" then codes "pdf" else codes "xl"

abbrev manager : Manager
manager = record { target_directories = codes "d" ∷ []; canaries = []; armed_count = 0; files = [] }

resolve-idempotent : (path : Text) → never_empty (never_empty path) ≡ never_empty path
resolve-idempotent [] = refl
resolve-idempotent (c ∷ path) = refl

resolve-not_empty : (path : Text) → is_empty (never_empty path) ≡ false
resolve-not_empty [] = refl
resolve-not_empty (c ∷ path) = refl

arm_traps-IsValid_example :
    let m' = arm_traps system templates manager in
    All
      (λ d.
        All
          (λ t. has_key (norm system (system.in_directory d t.filename)) m'.canaries ≡ true)
          templates)
      (codes "d" ∷ [])
    × IsValid system document templates m'
    × (verify_all_canaries system templates m' ≡ [])
unfolding sentinel_antivirus.Prelude.text_beq
arm_traps-IsValid_example =
    arm_traps-IsValid system document templates ((λ p. refl), (λ p. refl))
      (resolve-idempotent, resolve-not_empty, λ d. (refl, (refl, tt))) manager (refl, (refl, tt))
      (refl, tt)

-- The note is encrypted.
abbrev trap : CanaryTrap
trap = trap_at system (codes "d!00_n.pdf") note

abbrev encrypted : Manager
encrypted = record manager {
  canaries = (codes "d!00_n.pdf", trap) ∷ [];
  files = (codes "d!00_n.pdf", codes "???") ∷ [];
}

encrypted-IsValid : IsValid system document templates encrypted
unfolding sentinel_antivirus.Prelude.text_beq lookup
encrypted-IsValid = ((refl, tt), ((refl, (refl, refl, refl, refl, refl)), tt))

encrypted-tampered : length (verify_all_canaries system templates encrypted) ≡ 1
unfolding verify_all_canaries check_tampering sentinel_antivirus.Canary.inspect
    sentinel_antivirus.Prelude.text_beq lookup
encrypted-tampered = refl

repair_canaries-clean_example :
    let m' = (repair_canaries system templates encrypted).0 in
    (verify_all_canaries system templates m' ≡ [])
    × IsValid system document templates m'
    × ((k : Text) → lookup k m'.canaries ≡ lookup k encrypted.canaries)
repair_canaries-clean_example =
    repair_canaries-clean system document templates encrypted ((λ p. refl), (λ p. refl))
      encrypted-IsValid
