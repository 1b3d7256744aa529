-- ===== src/Quarantine/Runs.antt =====
-- Requests to the quarantine, one after the other, and what they do to its table.
use mathlib.Core.Option
use sentinel_antivirus.Prelude.{
  ℕ, ◌≡◌, refl, ap, ◌∙◌, ◌⊎◌, inl, inr, Bool, true, false, Option, none, some, List, [], ◌∷◌, ◌++◌,
  arith, ◌==◌, nat_eq, pair_eq, Bool-cases, Option-cases, Text, text_eq,
}
use sentinel_antivirus.Result.{Result, Result-cases}
use sentinel_antivirus.Dict.{Dict, lookup}
use sentinel_antivirus.Quarantine.{
  Decision, restored, deleted, decision_beq, QuarantineRecord, File, Os, Store, Request, find_row,
  update_rows, unlink, move_file, insert_row, discard_copy, record_of, add, get, decide, put_back,
  restore, remove_copy, delete, is_file, destination, unblock,
}
use sentinel_antivirus.Quarantine.Table.{find_row-update, find_row-append, find_row-id}

-- The requests that the store gets
pub data Action : Type 0 where
  add_file : Request → Action
  restore_file : Text → Text → ℕ → Action
  delete_file : Text → Text → ℕ → Action

-- Whether the record of an identifier is deleted, where there is one
abbrev pub is_deleted : Text → List QuarantineRecord → Option Bool
is_deleted id rows = Option.map (λ r. decision_beq r.decision deleted) (find_row id rows)

module _ {Kernel : Type 0} (os : Os Kernel) where
  discard_copy-rows : (dest : Text) (s : Store Kernel) → (discard_copy os dest s).1.rows ≡ s.rows
  unfolding unlink
  discard_copy-rows dest s = ground arith

  insert_row-rows :
      (b : Bool) (r : QuarantineRecord) (s : Store Kernel)
      → ((insert_row os b r s).1.rows ≡ s.rows)
        ⊎ ((find_row r.id s.rows ≡ none) × ((insert_row os b r s).1.rows ≡ s.rows ++ r ∷ []))
  unfolding insert_row
  insert_row-rows true r s = inl (discard_copy-rows r.quarantined_path s)
  insert_row-rows false r s = elim (Option-cases (find_row r.id s.rows)) [
    | inl h ↦ inr (h, rw h refl)
    | inr (x, h) ↦ inl (rw h (discard_copy-rows r.quarantined_path s))
  ]

  pub add-rows :
      (q : Request) (s : Store Kernel)
      → ((add os q s).1.rows ≡ s.rows)
        ⊎ ((find_row q.entry_id s.rows ≡ none)
            × ((add os q s).1.rows ≡ s.rows ++ record_of os q s.files ∷ []))
  unfolding add record_of
  add-rows q s = elim (Bool-cases (is_file os q.source_path s.files)) [
    | inr h ↦ inl (rw h refl)
    | inl h ↦ rw h (elim (Result-cases moved.0) [
      | inl (files, m) ↦
          rw m
            (insert_row-rows q.insert_denied (record_of os q s.files) (record s { files = files }))
      | inr (e, m) ↦ rw m (inl (discard_copy-rows dest (record s { files = moved.1 })))
    ])
  ]
    where
      dest : Text
      dest = destination os q.entry_id q.source_path

      moved : Result (Dict Text File) × Dict Text File
      moved = move_file os q.source_path dest s.files

  unblock-rows : (path : Text) (s : Store Kernel) → (unblock os path s).rows ≡ s.rows
  unfolding unblock
  unblock-rows path s = ground arith

  put_back-rows :
      (r : QuarantineRecord) (notes : Text) (now : ℕ) (s : Store Kernel)
      → ((put_back os r notes now s).1.rows ≡ s.rows)
        ⊎ ((put_back os r notes now s).1.rows ≡ update_rows r.id restored notes now s.rows)
  unfolding put_back decide
  put_back-rows r notes now s =
      elim (Option-cases (lookup (os.resolve r.quarantined_path) s.files)) [
        | inl h ↦ inl (rw (put_back, h) refl)
        | inr (f, h) ↦
            rw (put_back, h)
              (elim (Bool-cases (os.copy_denied r.quarantined_path r.original_path)) [
                | inl d ↦ inl (rw (put_back, d) (unblock-rows r.original_path s))
                | inr d ↦ inr (
                    rw (put_back, d)
                      (ap (update_rows r.id restored notes now) (unblock-rows r.original_path s)))
              ])
      ]

  pub restore-rows :
      (id notes : Text) (now : ℕ) (s : Store Kernel)
      → ((restore os id notes now s).1.rows ≡ s.rows)
        ⊎ ((Option.map (λ r. decision_beq r.decision deleted) (find_row id s.rows) ≡ some false)
            × ((restore os id notes now s).1.rows ≡ update_rows id restored notes now s.rows))
  unfolding restore get
  restore-rows id notes now s = elim (Option-cases (find_row id s.rows)) [
    | inl h ↦ inl (rw (restore, h) refl)
    | inr (r, h) ↦
        rw (restore, h)
          (elim (Bool-cases (decision_beq r.decision deleted)) [
            | inl d ↦ inl (rw (restore, d) refl)
            | inr d ↦
                rw (restore, d)
                  (elim (put_back-rows r notes now s) [
                    | inl same ↦ inl same
                    | inr upd ↦ inr (
                      refl,
                      upd
                          ∙ ap (λ i. update_rows i restored notes now s.rows)
                              (find_row-id id r s.rows h),
                    )
                  ])
          ])
  ]

  pub delete-rows :
      (id notes : Text) (now : ℕ) (s : Store Kernel)
      → ((delete os id notes now s).1.rows ≡ s.rows)
        ⊎ ((delete os id notes now s).1.rows ≡ update_rows id deleted notes now s.rows)
  unfolding delete decide get
  delete-rows id notes now s = elim (Option-cases (find_row id s.rows)) [
    | inl h ↦ inl (rw (delete, h) refl)
    | inr (r, h) ↦
        rw (delete, h)
          (elim (Bool-cases (remove_copy os r.quarantined_path s.files).0) [
            | inl t ↦ inr (rw (delete, t) refl)
            | inr f ↦ inl (rw (delete, f) refl)
          ])
  ]

  unfoldable pub act : Action → Store Kernel → Store Kernel
  act (add_file q) s = (add os q s).1
  act (restore_file id notes now) s = (restore os id notes now s).1
  act (delete_file id notes now) s = (delete os id notes now s).1

  unfoldable pub run : List Action → Store Kernel → Store Kernel
  unfolding act
  run [] s = s
  run (a ∷ rest) s = run rest (act a s)

  find_append-deleted :
      (id : Text) (r : QuarantineRecord) (rows : List QuarantineRecord)
      → is_deleted id rows ≡ some true
      → is_deleted id (rows ++ r ∷ []) ≡ some true
  find_append-deleted id r rows h = elim (Option-cases (find_row id rows)) [
    | inl n ↦ absurd (ground (arith))
    | inr (x, e) ↦ rw (find_row-append id r rows, e) (ground arith)
  ]

  update-not_deleted :
      (id key : Text) (d : Decision) (notes : Text) (now : ℕ) (rows : List QuarantineRecord)
      → is_deleted id rows ≡ some true
      → is_deleted key rows ≡ some false
      → is_deleted id (update_rows key d notes now rows) ≡ some true
  update-not_deleted id key d notes now rows h k = elim (Bool-cases (id == key)) [
    | inl same ↦ absurd (ground (arith, text_eq.beq_iff id key))
    | inr other ↦ rw (find_row-update key id d notes now rows, other) h
  ]

  update-deleted :
      (id key notes : Text) (now : ℕ) (rows : List QuarantineRecord)
      → is_deleted id rows ≡ some true
      → is_deleted id (update_rows key deleted notes now rows) ≡ some true
  unfolding decision_beq
  update-deleted id key notes now rows h = elim (Option-cases (find_row id rows)) [
    | inl n ↦ absurd (ground arith)
    | inr (x, e) ↦ elim (Bool-cases (id == key)) [
      | inl same ↦ rw (find_row-update key id deleted notes now rows, same, e) refl
      | inr other ↦ rw (find_row-update key id deleted notes now rows, other) h
    ]
  ]

  act-deleted :
      (id : Text) (a : Action) (s : Store Kernel)
      → is_deleted id s.rows ≡ some true
      → is_deleted id (act a s).rows ≡ some true
  unfolding act decision_beq
  act-deleted id (add_file q) s h = elim (add-rows q s) [
    | inl same ↦ rw same h
    | inr (new, rows) ↦ rw rows (find_append-deleted id (record_of os q s.files) s.rows h)
  ]
  act-deleted id (restore_file key notes now) s h = elim (restore-rows key notes now s) [
    | inl same ↦ rw same h
    | inr (kept, rows) ↦ rw rows (update-not_deleted id key restored notes now s.rows h kept)
  ]
  act-deleted id (delete_file key notes now) s h = elim (delete-rows key notes now s) [
    | inl same ↦ rw same h
    | inr rows ↦ rw rows (update-deleted id key notes now s.rows h)
  ]

  -- What is deleted stays deleted, whatever is asked of the store after it.
  pub run-deleted :
      (id : Text) (rest : List Action) (s : Store Kernel)
      → is_deleted id s.rows ≡ some true
      → is_deleted id (run rest s).rows ≡ some true
  unfolding run
  run-deleted id [] s h = h
  run-deleted id (a ∷ rest) s h = run-deleted id rest (act a s) (act-deleted id a s h)
