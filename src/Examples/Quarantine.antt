-- ===== src/Examples/Quarantine.antt =====
-- A file that goes into the quarantine, and back or away.
use sentinel_antivirus.Prelude.{
  ℕ, ◌≡◌, refl, true, false, none, some, List, [], ◌∷◌, ◌++◌, nat_eq, pair_eq, codes, text_beq,
  text_eq,
}
use sentinel_antivirus.Dict.{lookup}
use sentinel_antivirus.Quarantine.{
  QuarantineRecord, File, Os, Store, Request, find_row, add, restore, decision_beq, deleted,
  pending,
}
use sentinel_antivirus.Quarantine.Add.{isolated, CanMove, Dropped, add-insert_denied}
use sentinel_antivirus.Quarantine.Table.{decided}
use sentinel_antivirus.Quarantine.Restore.{usable, restore-add}
use sentinel_antivirus.Quarantine.Runs.{
  Action, add_file, delete_file, restore_file, run, is_deleted, run-deleted,
}

-- A system that refuses nothing but to remove a read-only file, with all quarantined files under one name, and no kernel bridge
abbrev pub system : Os ℕ
system = record {
  sha256_hex = λ b. b;
  resolve = λ p. p;
  file_name = λ p. p;
  in_quarantine_dir = λ n. codes "/q/" ++ n;
  read_denied = λ p. false;
  copy_denied = λ p q. false;
  unlink_denied = λ p f. f.read_only;
  chmod_denied = λ p. false;
  remove_block = λ p k. k;
}

abbrev pub program : File
program = record { bytes = codes "MZ"; executable = true; read_only = false }

abbrev pub disk : Store ℕ
disk = record { rows = []; files = (codes "a.exe", program) ∷ []; kernel_bridge = none }

abbrev pub request : Request
request = record {
  source_path = codes "a.exe";
  subject = codes "pid:5";
  reason = codes "canary";
  score = 85;
  source_signals = codes "canary_tripped" ∷ [];
  entry_id = codes "01";
  timestamp = codes "2026-07-16T10:22:31.000Z";
  insert_denied = false;
}

disk-CanMove : CanMove system request program disk
unfolding lookup text_beq
disk-CanMove = (refl, refl, refl, refl, refl)

abbrev refused : Request
refused = record request { insert_denied = true }

add-insert_denied_example :
    (lookup (codes "a.exe") (add system refused disk).1.files ≡ none)
    × ((add system refused disk).1.rows ≡ [])
    × Dropped system refused program disk
unfolding lookup text_beq
add-insert_denied_example =
    add-insert_denied system refused program disk (refl, refl, refl, refl, refl) refl

restore-add_example :
    ((restore system (codes "01") [] 9 (add system request disk).1).0 ≡ some (codes "a.exe"))
    × (lookup (codes "a.exe") (restore system (codes "01") [] 9 (add system request disk).1).1.files
        ≡ some (usable program))
unfolding find_row
restore-add_example =
    restore-add system request program [] 9 disk disk-CanMove refl refl refl refl refl

abbrev row : QuarantineRecord
row = record {
  id = codes "01";
  subject = codes "pid:5";
  original_path = codes "a.exe";
  quarantined_path = codes "q";
  sha256 = codes "MZ";
  reason = [];
  score = 85;
  timestamp = [];
  source_signals = [];
  decision = pending;
  notes = [];
  decided_at = none;
}

abbrev full : Store ℕ
full = record { rows = row ∷ []; files = (codes "q", isolated program) ∷ []; kernel_bridge = none }

abbrev gone : Store ℕ
gone = record full { rows = decided deleted [] 9 row ∷ [] }

abbrev pub requests : List Action
requests = restore_file (codes "01") [] 10 ∷ add_file request ∷ delete_file (codes "01") [] 11 ∷ []

run-deleted_example : is_deleted (codes "01") (run system requests gone).rows ≡ some true
unfolding find_row text_beq decision_beq
run-deleted_example = run-deleted system (codes "01") requests gone refl
