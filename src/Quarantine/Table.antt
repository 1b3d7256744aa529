-- ===== src/Quarantine/Table.antt =====
-- The table of the quarantine: what is found after an update and after an insertion.
use sentinel_antivirus.Prelude.{
  ℕ, ◌≡◌, refl, inl, inr, none, some, List, [], ◌∷◌, ◌++◌, arith, if◌then◌else◌, ◌==◌, nat_eq,
  pair_eq, Bool-cases, Text, text_eq,
}
use mathlib.Core.Option
use sentinel_antivirus.Quarantine.{Decision, QuarantineRecord, find_row, update_rows}

-- The record with a decision
abbrev pub decided : Decision → Text → ℕ → QuarantineRecord → QuarantineRecord
decided d notes now r = record r { decision = d; notes = notes; decided_at = some now }

pub find_row-id :
    (id : Text) (r : QuarantineRecord) (rs : List QuarantineRecord)
    → find_row id rs ≡ some r
    → r.id ≡ id
unfolding find_row
find_row-id id r [] h = cc
find_row-id id r (x ∷ rs) h = elim (Bool-cases (x.id == id)) [
  | inl same ↦ ground (arith, text_eq.beq_iff x.id id)
  | inr other ↦ find_row-id id r rs (ground arith)
]

-- An update changes the record of its identifier only.
pub find_row-update :
    (id key : Text) (d : Decision) (notes : Text) (now : ℕ) (rs : List QuarantineRecord)
    → find_row key (update_rows id d notes now rs)
      ≡ (if key == id then Option.map (decided d notes now) (find_row key rs) else find_row key rs)
unfolding find_row update_rows
find_row-update id key d notes now [] = ground arith
find_row-update id key d notes now (r ∷ rs) = ground (
  arith,
  text_eq.beq_iff r.id id,
  text_eq.beq_iff r.id key,
  text_eq.beq_iff key id,
  find_row-update id key d notes now rs,
)

-- A row that is put at the end is found where its identifier had none.
pub find_row-append :
    (key : Text) (r : QuarantineRecord) (rs : List QuarantineRecord)
    → find_row key (rs ++ r ∷ [])
      ≡ elim (find_row key rs) [ some x ↦ some x | none ↦ if r.id == key then some r else none ]
unfolding find_row
find_row-append key r [] = refl
find_row-append key r (x ∷ rs) = ground (arith, find_row-append key r rs)
