-- ===== src/Kernel/Bridge/Hashes.antt =====
-- What the blocklist of hashes says after its operations.
use sentinel_antivirus.Prelude.{
  ℕ, ◌≡◌, refl, ap, inl, inr, true, none, arith, ◌==◌, nat_eq, pair_eq, Bool-cases, Option-cases,
  beq_refl, is_some, Text, text_eq,
}
use sentinel_antivirus.Dict.{Dict, lookup, has_key, insert, lookup-insert, lookup-erase}
use sentinel_antivirus.Kernel.Blocklist.{
  find_hash, Tools, Contents, HashBlocklist, identify, add_hash, remove_hash, is_blocked,
}

pub add_hash-is_blocked :
    (os : Tools) (files : Contents) (now : ℕ) (path reason : Text) (l : HashBlocklist)
    → is_some (is_blocked os files path (add_hash os files now path reason none l).1)
      ≡ is_some (identify os files path)
unfolding add_hash is_blocked
add_hash-is_blocked os files now path reason l = elim (Option-cases (identify os files path)) [
  | inl e ↦ rw (add_hash, is_blocked, e) refl
  | inr (sha, e) ↦
      rw (add_hash, is_blocked, e)
        (rw (lookup-insert sha sha _ l.blocks, beq_refl text_eq sha) refl)
]

pub remove_hash-is_blocked :
    (os : Tools) (files : Contents) (path : Text) (l : HashBlocklist)
    → is_blocked os files path (remove_hash os files path l).1 ≡ none
unfolding remove_hash is_blocked
remove_hash-is_blocked os files path l = elim (Option-cases (identify os files path)) [
  | inl e ↦ rw (remove_hash, is_blocked, e) refl
  | inr (sha, e) ↦ elim (Option-cases (lookup sha l.blocks)) [
    | inl new ↦ rw (remove_hash, is_blocked, e, has_key, new) (rw new refl)
    | inr (r, old) ↦
        rw (remove_hash, is_blocked, e, has_key, old)
          (rw (lookup-erase sha sha l.blocks, beq_refl text_eq sha) refl)
  ]
]

pub is_blocked-identify :
    (os : Tools) (files : Contents) (path : Text) (l : HashBlocklist)
    → is_some (is_blocked os files path l) ≡ true
    → is_some (identify os files path) ≡ true
unfolding is_blocked
is_blocked-identify os files path l h = elim (Option-cases (identify os files path)) [
  | inr (sha, e) ↦ rw e refl
  | inl e ↦ absurd (ground (arith, ap (λ o. is_some (find_hash o l)) e))
]

pub has_key-insert_twice :
    (k j : Text) (v : Text) (d : Dict Text Text) → has_key k (insert j v (insert k v d)) ≡ true
has_key-insert_twice k j v d = elim (Bool-cases (j == k)) [
  | inl same ↦ rw (has_key, lookup-insert j k v (insert k v d), same) refl
  | inr other ↦
      rw
        (
          has_key,
          lookup-insert j k v (insert k v d),
          other,
          lookup-insert k k v d,
          beq_refl text_eq k,
        )
        refl
]
