-- ===== src/Quarantine/Add.antt =====
-- What `add` does where the system allows it, and where the database refuses the row.
use sentinel_antivirus.Prelude.{
  inr, inl, if◌then◌else◌, Bool-cases, ◌≡◌, refl, true, false, none, some, arith, ◌==◌, nat_eq,
  pair_eq, beq_refl, Text, text_eq,
}
use sentinel_antivirus.Dict.{has_key, Dict, lookup, insert, erase, lookup-insert, lookup-erase}
use sentinel_antivirus.Result.{err, ok}
use sentinel_antivirus.Quarantine.{
  os_error, err, File, Os, Store, Request, find_row, strip_execute, unlink, move_file, insert_row,
  record_of, add, get, destination, is_file,
}
use sentinel_antivirus.Quarantine.Table.{find_row-append}

-- The copy in the quarantine: it can be neither run nor written.
abbrev pub isolated : File → File
isolated f = record f { executable = false; read_only = true }

beq_false-sym : (a b : Text) → (a == b) ≡ false → (b == a) ≡ false
beq_false-sym a b h = ground (arith, text_eq.beq_iff a b, text_eq.beq_iff b a)

module _ {Kernel : Type 0} (os : Os Kernel) where
  abbrev pub target : Request → Text
  target q = destination os q.entry_id q.source_path

  -- The source is a file, and the system lets the store copy it elsewhere, remove it, and set the
  -- permissions of the copy.
  abbrev pub CanMove : Request → File → Store Kernel → Type 0
  CanMove q f s =
      (lookup (os.resolve q.source_path) s.files ≡ some f)
      × (os.copy_denied q.source_path (target q) ≡ false)
      × (os.unlink_denied q.source_path f ≡ false)
      × (os.chmod_denied (target q) ≡ false)
      × ((os.resolve (target q) == os.resolve q.source_path) ≡ false)

  -- The files after the move
  abbrev pub moved : Request → File → Store Kernel → Dict Text File
  moved q f s =
      insert (os.resolve (target q)) (isolated f)
        (erase (os.resolve q.source_path) (insert (os.resolve (target q)) f s.files))

  lookup-source :
      (q : Request) (f : File) (s : Store Kernel)
      → CanMove q f s
      → lookup (os.resolve q.source_path) (insert (os.resolve (target q)) f s.files) ≡ some f
  lookup-source q f s h =
      rw (lookup-insert (os.resolve (target q)) (os.resolve q.source_path) f s.files, h.4, h.0) refl

  lookup-target :
      (q : Request) (f : File) (s : Store Kernel)
      → CanMove q f s
      → lookup
          (os.resolve (target q))
          (erase (os.resolve q.source_path) (insert (os.resolve (target q)) f s.files))
        ≡ some f
  lookup-target q f s h =
      rw
        (
          lookup-erase (os.resolve q.source_path) (os.resolve (target q))
              (insert (os.resolve (target q)) f s.files),
          beq_false-sym (os.resolve (target q)) (os.resolve q.source_path) h.4,
          lookup-insert (os.resolve (target q)) (os.resolve (target q)) f s.files,
          beq_refl text_eq (os.resolve (target q)),
        )
        refl

  is_file-true :
      (path : Text) {f : File} (files : Dict Text File)
      → lookup (os.resolve path) files ≡ some f
      → is_file os path files ≡ true
  is_file-true path files h = rw (is_file, has_key, h) refl

  move_file-moved :
      (q : Request) (f : File) (s : Store Kernel)
      → CanMove q f s
      → move_file os q.source_path (target q) s.files ≡ (ok (moved q f s), moved q f s)
  unfolding move_file unlink strip_execute
  move_file-moved q f s h =
      rw (move_file, h.0, h.1, lookup-source q f s h, h.2, h.3, lookup-target q f s h) refl

  pub add-moved :
      (q : Request) (f : File) (s : Store Kernel)
      → CanMove q f s
      → add os q s
        ≡ insert_row os q.insert_denied (record_of os q s.files) (record s { files = moved q f s })
  unfolding add
  add-moved q f s h = rw (is_file-true q.source_path s.files h.0, move_file-moved q f s h) refl

  pub lookup-moved :
      (q : Request) (f : File) (s : Store Kernel)
      → CanMove q f s
      → (lookup (os.resolve q.source_path) (moved q f s) ≡ none)
        × (lookup (os.resolve (target q)) (moved q f s) ≡ some (isolated f))
  lookup-moved q f s h = (
    rw
        (
          lookup-insert (os.resolve (target q)) (os.resolve q.source_path) (isolated f)
              (erase (os.resolve q.source_path) (insert (os.resolve (target q)) f s.files)),
          h.4,
          lookup-erase (os.resolve q.source_path) (os.resolve q.source_path)
              (insert (os.resolve (target q)) f s.files),
          beq_refl text_eq (os.resolve q.source_path),
        )
        refl,
    rw
        (
          lookup-insert (os.resolve (target q)) (os.resolve (target q)) (isolated f)
              (erase (os.resolve q.source_path) (insert (os.resolve (target q)) f s.files)),
          beq_refl text_eq (os.resolve (target q)),
        )
        refl,
  )

  -- What `add` does with a new identifier, where the system and the database refuse nothing: the
  -- record is returned and found, the source is gone, and the copy can be neither run nor written.
  pub add_lem :
      (q : Request) (f : File) (s : Store Kernel)
      → CanMove q f s
      → q.insert_denied ≡ false
      → find_row q.entry_id s.rows ≡ none
      → ((add os q s).0 ≡ ok (some (record_of os q s.files)))
        × (get q.entry_id (add os q s).1 ≡ some (record_of os q s.files))
        × (lookup (os.resolve q.source_path) (add os q s).1.files ≡ none)
        × (lookup (os.resolve (target q)) (add os q s).1.files ≡ some (isolated f))
  unfolding insert_row get record_of
  add_lem q f s h i n =
      rw (add-moved q f s h, i, n, find_row-append q.entry_id (record_of os q s.files) s.rows)
        (
          refl,
          rw (n, ◌==◌, beq_refl text_eq q.entry_id) refl,
          (lookup-moved q f s h).0,
          (lookup-moved q f s h).1,
        )

  -- What a refused row leaves at the path of the copy
  abbrev pub Dropped : Request → File → Store Kernel → Type 0
  Dropped q f s =
      if os.unlink_denied (target q) (isolated f)
      then ((add os q s).0 ≡ err os_error)
        × (lookup (os.resolve (target q)) (add os q s).1.files ≡ some (isolated f))
      else ((add os q s).0 ≡ ok none) × (lookup (os.resolve (target q)) (add os q s).1.files ≡ none)

  -- After a move that succeeds, a row that the database refuses leaves no way back to the file: the
  -- source is gone and the table is as it was. Where the system removes the copy, which is read-only
  -- by then, the copy is gone as well and there is no record; where it does not, `add` raises and the
  -- copy stays without a row.
  pub add-insert_denied :
      (q : Request) (f : File) (s : Store Kernel)
      → CanMove q f s
      → q.insert_denied ≡ true
      → (lookup (os.resolve q.source_path) (add os q s).1.files ≡ none)
        × ((add os q s).1.rows ≡ s.rows)
        × Dropped q f s
  unfolding insert_row unlink record_of
  add-insert_denied q f s h i =
      let there = (lookup-moved q f s h).1 in
      elim (Bool-cases (os.unlink_denied (target q) (isolated f))) [
        | inl kept ↦
            rw (add-moved q f s h, i, is_file-true (target q) (moved q f s) there, there, kept)
              ((lookup-moved q f s h).0, refl, (refl, there))
        | inr free ↦
            rw (add-moved q f s h, i, is_file-true (target q) (moved q f s) there, there, free)
              (
                rw
                    (
                      lookup-erase (os.resolve (target q)) (os.resolve q.source_path) (moved q f s),
                      h.4,
                    )
                    (lookup-moved q f s h).0,
                refl,
                (
                  refl,
                  rw
                      (
                        lookup-erase (os.resolve (target q)) (os.resolve (target q)) (moved q f s),
                        beq_refl text_eq (os.resolve (target q)),
                      )
                      refl,
                ),
              )
      ]
