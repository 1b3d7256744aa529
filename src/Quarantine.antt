-- ===== src/Quarantine.antt =====
-- `QuarantineStore` of sentinel/response/quarantine_store.py: the table of records and the files it
-- moves. The lock makes each access of the table one step; no other thread comes between.
pub mod Add
pub mod Table
pub mod Restore
pub mod Runs
use sentinel_antivirus.Prelude.{
  ℕ, Bool, true, false, ◌&&◌, not, Option, none, some, List, [], ◌∷◌, ◌++◌, if◌then◌else◌, ◌==◌,
  nat_eq, length, keep, any_of, is_empty, Text, text_eq,
}
use sentinel_antivirus.Dict.{Dict, lookup, has_key, insert, erase}
use sentinel_antivirus.Result.{os_error, Result, ok, err}

pub data Decision : Type 0 where
  pending restored deleted : Decision

unfoldable pub decision_beq : Decision → Decision → Bool
decision_beq pending pending = true
decision_beq restored restored = true
decision_beq deleted deleted = true
decision_beq a b = false

-- `QuarantineRecord`, a row of the table. A score is in points, `source_signals` holds kinds.
pub record QuarantineRecord : Type 0 where
  pub id : Text
  pub subject : Text
  pub original_path : Text
  pub quarantined_path : Text
  pub sha256 : Text
  pub reason : Text
  pub score : ℕ
  pub timestamp : Text
  pub source_signals : List Text
  pub decision : Decision
  pub notes : Text
  pub decided_at : Option ℕ

-- A file's bytes, and what its mode and its access list allow
pub record File : Type 0 where
  pub bytes : Text
  pub executable : Bool
  pub read_only : Bool

-- What the store uses of the system, with the accesses that it refuses. The kernel bridge, of any
-- type, is told to unblock a path; its own errors stop there.
pub record Os (Kernel : Type 0) : Type 0 where
  pub sha256_hex : Text → Text
  -- `path.resolve()`, `path.name` and `quarantine_dir / name`
  pub resolve : Text → Text
  pub file_name : Text → Text
  pub in_quarantine_dir : Text → Text
  pub read_denied : Text → Bool
  pub copy_denied : Text → Text → Bool
  pub unlink_denied : Text → File → Bool
  pub chmod_denied : Text → Bool
  pub remove_block : Text → Kernel → Kernel

-- Files are held under their resolved paths; the newest row is the last.
pub record Store (Kernel : Type 0) : Type 0 where
  pub rows : List QuarantineRecord
  pub files : Dict Text File
  pub kernel_bridge : Option Kernel

-- The arguments of `add`, with the identifier and the time that it takes, and what the database
-- does
pub record Request : Type 0 where
  pub source_path : Text
  pub subject : Text
  pub reason : Text
  pub score : ℕ
  pub source_signals : List Text
  pub entry_id : Text
  pub timestamp : Text
  pub insert_denied : Bool

-- `SELECT * FROM quarantine WHERE id=?`
unfoldable pub find_row : Text → List QuarantineRecord → Option QuarantineRecord
find_row id [] = none
find_row id (r ∷ rs) = if r.id == id then some r else find_row id rs

-- `UPDATE quarantine SET decision=?, notes=?, decided_at=? WHERE id=?`
unfoldable pub update_rows :
    Text → Decision → Text → ℕ → List QuarantineRecord → List QuarantineRecord
update_rows id d notes now [] = []
update_rows id d notes now (r ∷ rs) =
    (if r.id == id then record r { decision = d; notes = notes; decided_at = some now } else r)
    ∷ update_rows id d notes now rs

module _ {Kernel : Type 0} where
  -- `get`
  unfoldable pub get : Text → Store Kernel → Option QuarantineRecord
  unfolding find_row
  get id s = find_row id s.rows

  -- `_decide`
  unfoldable pub decide : Text → Decision → Text → ℕ → Store Kernel → Store Kernel
  unfolding update_rows
  decide id d notes now s = record s { rows = update_rows id d notes now s.rows }

  -- `count`
  unfoldable pub count : Option Decision → Store Kernel → ℕ
  unfolding decision_beq
  count none s = length s.rows
  count (some d) s = length (keep (λ r. decision_beq r.decision d) s.rows)

  -- `is_restored`
  unfoldable pub is_restored : Text → Store Kernel → Bool
  unfolding decision_beq
  is_restored sha s =
      if is_empty sha
      then false
      else any_of (λ r. r.sha256 == sha && decision_beq r.decision restored) s.rows

module _ {Kernel : Type 0} (os : Os Kernel) where
  -- `_sha256_of`
  unfoldable pub sha256_of : Text → Dict Text File → Text
  sha256_of path files =
      if os.read_denied path
      then []
      else elim (lookup (os.resolve path) files) [ none ↦ [] | some f ↦ os.sha256_hex f.bytes ]

  -- `path.is_file()`
  abbrev pub is_file : Text → Dict Text File → Bool
  is_file path files = has_key (os.resolve path) files

  -- `_strip_execute`
  unfoldable pub strip_execute : Text → Dict Text File → Dict Text File
  strip_execute path files =
      if os.chmod_denied path then files else elim (lookup (os.resolve path) files) [
        | none ↦ files
        | some f ↦
            insert (os.resolve path) (record f { executable = false; read_only = true }) files
      ]

  -- `path.unlink(missing_ok=True)`. Whether it is refused may depend on the file as it is then: a
  -- system may keep a read-only file.
  unfoldable pub unlink : Text → Dict Text File → Result (Dict Text File)
  unlink path files = elim (lookup (os.resolve path) files) [
    | none ↦ ok files
    | some f ↦ if os.unlink_denied path f then err os_error else ok (erase (os.resolve path) files)
  ]

  -- `if dest.exists(): dest.unlink(missing_ok=True)`, after which `add` gives up
  abbrev pub discard_copy : Text → Store Kernel → Result (Option QuarantineRecord) × Store Kernel
  discard_copy dest s =
      if is_file dest s.files
      then elim (unlink dest s.files) [
        | ok files ↦ (ok none, record s { files = files })
        | err e ↦ (err e, s)
      ]
      else (ok none, s)

  -- The move of `add`: a copy, the removal of the source, the permissions of the copy. An error
  -- leaves the files as they are then.
  unfoldable pub move_file : Text → Text → Dict Text File → Result (Dict Text File) × Dict Text File
  unfolding unlink strip_execute
  move_file src dest files = elim (lookup (os.resolve src) files) [
    | none ↦ (err os_error, files)
    | some f ↦
        if os.copy_denied src dest
        then (err os_error, files)
        else let copied = insert (os.resolve dest) f files in
          elim (unlink src copied) [
            | err e ↦ (err e, copied)
            | ok left ↦ (ok (strip_execute dest left), strip_execute dest left)
          ]
  ]

  -- `dest` of `add`
  abbrev pub destination : Text → Text → Text
  destination entry_id src = os.in_quarantine_dir (entry_id ++ b'_' ∷ os.file_name src)

  -- The `INSERT` of `add`: an id that the table has is an `sqlite3.Error`, as is a database that is
  -- locked or full, `insert_denied`.
  unfoldable pub insert_row :
      Bool → QuarantineRecord → Store Kernel → Result (Option QuarantineRecord) × Store Kernel
  unfolding find_row unlink
  insert_row insert_denied r s =
      if insert_denied then discard_copy r.quarantined_path s else elim (find_row r.id s.rows) [
        | some old ↦ discard_copy r.quarantined_path s
        | none ↦ (ok (some r), record s { rows = s.rows ++ r ∷ [] })
      ]

  unfoldable pub record_of : Request → Dict Text File → QuarantineRecord
  unfolding sha256_of
  record_of q files = record {
    id = q.entry_id;
    subject = q.subject;
    original_path = os.resolve q.source_path;
    quarantined_path = destination q.entry_id q.source_path;
    sha256 = sha256_of q.source_path files;
    reason = q.reason;
    score = q.score;
    timestamp = q.timestamp;
    source_signals = q.source_signals;
    decision = pending;
    notes = [];
    decided_at = none;
  }

  -- `add`
  unfoldable pub add : Request → Store Kernel → Result (Option QuarantineRecord) × Store Kernel
  add q s =
      if not (is_file q.source_path s.files)
      then (ok none, s)
      else let dest = destination q.entry_id q.source_path in
        let (moved, files) = move_file q.source_path dest s.files in
        elim moved [
          | err e ↦ discard_copy dest (record s { files = files })
          | ok after ↦ insert_row q.insert_denied (record_of q s.files) (record s { files = after })
        ]

  -- The mode that `copyfile` leaves: that of the file it writes over, or the default. The mode is
  -- then set, where that is allowed.
  abbrev pub restored_file : Bool → File → Option File → File
  restored_file denied f old =
      if denied
      then elim old [
        | none ↦ record f { executable = false; read_only = false }
        | some o ↦ record o { bytes = f.bytes }
      ]
      else record f { executable = true; read_only = false }

  -- `self.kernel_bridge.remove_block(rec.original_path)`
  unfoldable pub unblock : Text → Store Kernel → Store Kernel
  unblock path s = elim s.kernel_bridge [
    | none ↦ s
    | some k ↦
        if is_empty path then s else record s { kernel_bridge = some (os.remove_block path k) }
  ]

  -- `restore` of a record that is not deleted
  unfoldable pub put_back : QuarantineRecord → Text → ℕ → Store Kernel → Option Text × Store Kernel
  unfolding decide unblock
  put_back r notes now s = elim (lookup (os.resolve r.quarantined_path) s.files) [
    | none ↦ (none, s)
    | some f ↦
        let s1 = unblock r.original_path s in
        if os.copy_denied r.quarantined_path r.original_path
        then (none, s1)
        else let path = os.resolve r.original_path in
          let back = restored_file (os.chmod_denied r.original_path) f (lookup path s.files) in
          (
            some r.original_path,
            decide r.id restored notes now (record s1 { files = insert path back s.files }),
          )
  ]

  -- `restore`
  unfoldable pub restore : Text → Text → ℕ → Store Kernel → Option Text × Store Kernel
  unfolding decision_beq
  restore id notes now s = elim (get id s) [
    | none ↦ (none, s)
    | some r ↦ if decision_beq r.decision deleted then (none, s) else put_back r notes now s
  ]

  -- `qpath.chmod(... | stat.S_IWRITE)` and `qpath.unlink()`
  unfoldable pub remove_copy : Text → Dict Text File → Bool × Dict Text File
  remove_copy path files = elim (lookup (os.resolve path) files) [
    | none ↦ (true, files)
    | some f ↦
        if os.chmod_denied path
        then (false, files)
        else if os.unlink_denied path (record f { read_only = false })
        then (false, insert (os.resolve path) (record f { read_only = false }) files)
        else (true, erase (os.resolve path) files)
  ]

  -- `delete`
  unfoldable pub delete : Text → Text → ℕ → Store Kernel → Bool × Store Kernel
  delete id notes now s = elim (get id s) [
    | none ↦ (false, s)
    | some r ↦
        let (removed, files) = remove_copy r.quarantined_path s.files in
        elim removed [
          | false ↦ (false, record s { files = files })
          | true ↦ (true, decide id deleted notes now (record s { files = files }))
        ]
  ]
