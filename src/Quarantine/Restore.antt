-- ===== src/Quarantine/Restore.antt =====
-- What `restore` and `delete` do to a record that the table has, and the way back of a file that
-- was put into the quarantine.
use sentinel_antivirus.Prelude.{
  ℕ, ◌≡◌, refl, sym, ap, ◌∙◌, true, false, none, some, List, arith, ◌==◌, nat_eq, pair_eq, beq_refl,
  Text, text_eq,
}
use sentinel_antivirus.Dict.{erase, Dict, lookup, lookup-insert, lookup-erase}
use sentinel_antivirus.Quarantine.{
  restored, deleted, decision_beq, QuarantineRecord, File, Os, Store, Request, find_row, record_of,
  add, get, decide, put_back, restore, remove_copy, delete, unblock,
}
use sentinel_antivirus.Quarantine.Table.{decided, find_row-update, find_row-id}
use sentinel_antivirus.Quarantine.Add.{isolated, CanMove, target, add_lem}

-- A restored file: it can be run and written.
abbrev pub usable : File → File
usable f = record f { executable = true; read_only = false }

module _ {Kernel : Type 0} (os : Os Kernel) where
  found-beq :
      (id : Text) (r : QuarantineRecord) (rs : List QuarantineRecord)
      → find_row id rs ≡ some r
      → (id == r.id) ≡ true
  found-beq id r rs g = (text_eq.beq_iff id r.id).1 (sym (find_row-id id r rs g))

  unblock-rows : (path : Text) (s : Store Kernel) → (unblock os path s).rows ≡ s.rows
  unfolding unblock
  unblock-rows path s = ground arith

  restore-found :
      (r : QuarantineRecord) (id notes : Text) (now : ℕ) (s : Store Kernel)
      → get id s ≡ some r
      → decision_beq r.decision deleted ≡ false
      → restore os id notes now s ≡ put_back os r notes now s
  unfolding restore
  restore-found r id notes now s g d = rw (restore, g, d) refl

  -- A record that is not deleted, whose copy is there and may be copied back and made usable: its
  -- original path has the file again, to be run and written, and the record is decided.
  pub restore_lem :
      (r : QuarantineRecord) (f : File) (id notes : Text) (now : ℕ) (s : Store Kernel)
      → get id s ≡ some r
      → decision_beq r.decision deleted ≡ false
      → lookup (os.resolve r.quarantined_path) s.files ≡ some f
      → os.copy_denied r.quarantined_path r.original_path ≡ false
      → os.chmod_denied r.original_path ≡ false
      → ((restore os id notes now s).0 ≡ some r.original_path)
        × (lookup (os.resolve r.original_path) (restore os id notes now s).1.files
            ≡ some (usable f))
        × (get id (restore os id notes now s).1 ≡ some (decided restored notes now r))
  unfolding get put_back decide
  restore_lem r f id notes now s g d l c m =
      rw
        (
          restore-found r id notes now s g d,
          put_back,
          l,
          c,
          m,
          unblock-rows r.original_path s,
          find_row-update r.id id restored notes now s.rows,
          found-beq id r s.rows g,
          g,
          lookup-insert (os.resolve r.original_path) (os.resolve r.original_path) (usable f)
              s.files,
          beq_refl text_eq (os.resolve r.original_path),
        )
        (refl, refl, refl)

  -- A file that was put into the quarantine under a new identifier and is restored is back at its
  -- path with its bytes, to be run and written, where the system refuses nothing on the way and the
  -- resolved path resolves to itself.
  pub restore-add :
      (q : Request) (f : File) (notes : Text) (now : ℕ) (s : Store Kernel)
      → CanMove os q f s
      → q.insert_denied ≡ false
      → find_row q.entry_id s.rows ≡ none
      → os.resolve (os.resolve q.source_path) ≡ os.resolve q.source_path
      → os.copy_denied (target os q) (os.resolve q.source_path) ≡ false
      → os.chmod_denied (os.resolve q.source_path) ≡ false
      → ((restore os q.entry_id notes now (add os q s).1).0 ≡ some (os.resolve q.source_path))
        × (lookup
              (os.resolve q.source_path)
              (restore os q.entry_id notes now (add os q s).1).1.files
            ≡ some (usable f))
  unfolding record_of decision_beq
  restore-add q f notes now s h i n idem c m =
      let a = add_lem os q f s h i n in
      let b =
        restore_lem (record_of os q s.files) (isolated f) q.entry_id notes now (add os q s).1 a.1
          refl a.3 c m in
      (
        b.0,
        ap (λ p. lookup p (restore os q.entry_id notes now (add os q s).1).1.files) (sym idem)
            ∙ b.1,
      )

  -- A record that is deleted is not restored, and nothing changes.
  pub restore-deleted :
      (r : QuarantineRecord) (id notes : Text) (now : ℕ) (s : Store Kernel)
      → get id s ≡ some r
      → decision_beq r.decision deleted ≡ true
      → restore os id notes now s ≡ (none, s)
  unfolding restore
  restore-deleted r id notes now s g d = rw (restore, g, d) refl

  remove_copy-erase :
      (path : Text) (f : File) (files : Dict Text File)
      → lookup (os.resolve path) files ≡ some f
      → os.chmod_denied path ≡ false
      → os.unlink_denied path (record f { read_only = false }) ≡ false
      → remove_copy os path files ≡ (true, erase (os.resolve path) files)
  unfolding remove_copy
  remove_copy-erase path f files l m u = rw (remove_copy, l, m, u) refl

  -- A confirmed deletion that the system allows removes the copy and marks the record as deleted.
  pub delete_lem :
      (r : QuarantineRecord) (f : File) (id notes : Text) (now : ℕ) (s : Store Kernel)
      → get id s ≡ some r
      → lookup (os.resolve r.quarantined_path) s.files ≡ some f
      → os.chmod_denied r.quarantined_path ≡ false
      → os.unlink_denied r.quarantined_path (record f { read_only = false }) ≡ false
      → ((delete os id notes now s).0 ≡ true)
        × (lookup (os.resolve r.quarantined_path) (delete os id notes now s).1.files ≡ none)
        × (get id (delete os id notes now s).1 ≡ some (decided deleted notes now r))
  unfolding get decide delete
  delete_lem r f id notes now s g l m u =
      rw
        (
          delete,
          g,
          remove_copy-erase r.quarantined_path f s.files l m u,
          remove_copy-erase r.quarantined_path f s.files l m u,
          lookup-erase (os.resolve r.quarantined_path) (os.resolve r.quarantined_path) s.files,
          beq_refl text_eq (os.resolve r.quarantined_path),
          find_row-update id id deleted notes now s.rows,
          beq_refl text_eq id,
          g,
        )
        (refl, refl, refl)

  -- After a confirmed deletion that the system allows, a restoration finds nothing to put back.
  pub restore-delete :
      (r : QuarantineRecord) (f : File) (id notes again : Text) (now later : ℕ) (s : Store Kernel)
      → get id s ≡ some r
      → lookup (os.resolve r.quarantined_path) s.files ≡ some f
      → os.chmod_denied r.quarantined_path ≡ false
      → os.unlink_denied r.quarantined_path (record f { read_only = false }) ≡ false
      → restore os id again later (delete os id notes now s).1
        ≡ (none, (delete os id notes now s).1)
  unfolding decision_beq
  restore-delete r f id notes again now later s g l m u =
      restore-deleted (decided deleted notes now r) id again later (delete os id notes now s).1
        (delete_lem r f id notes now s g l m u).2 refl
