-- ===== src/Dict/Entries.antt =====
-- Predicates on the entries of a dict, and its length, under each update.
use mathlib.Core.Option
use sentinel_antivirus.Prelude.{
  suc, ◌+◌, ◌≤◌, ◌<◌, ◌≡◌, refl, ap, inl, inr, Bool, true, some, [], ◌∷◌, arith, Eq, ◌==◌, nat_eq,
  pair_eq, Bool-cases, length, text_eq,
}
use sentinel_antivirus.Dict.{Dict, map_values, remove_if, lookup, has_key, insert, erase}

abbrev pub AllEntries {ℓ κ μ} : {K : Type ℓ} {V : Type κ} → (K → V → Type μ) → Dict K V → Type μ
AllEntries P [] = Unit
AllEntries P ((k, v) ∷ d) = P k v × AllEntries P d

module _ {ℓ κ μ} {K : Type ℓ} {V : Type κ} (P : K → V → Type μ) where
  pub AllEntries-remove_if :
      (q : K → V → Bool) (d : Dict K V) → AllEntries P d → AllEntries P (remove_if q d)
  unfolding remove_if
  AllEntries-remove_if q [] h = tt
  AllEntries-remove_if q ((k, v) ∷ d) h = elim (Bool-cases (q k v)) [
    | inl e ↦ rw e (AllEntries-remove_if q d h.1)
    | inr e ↦ rw e (h.0, AllEntries-remove_if q d h.1)
  ]

  pub AllEntries-map_values :
      (f : V → V)
      → ((k : K) (v : V) → P k v → P k (f v))
      → (d : Dict K V) → AllEntries P d
      → AllEntries P (map_values f d)
  AllEntries-map_values f g [] h = tt
  AllEntries-map_values f g ((k, v) ∷ d) h = (g k v h.0, AllEntries-map_values f g d h.1)

module _ {ℓ κ μ ν} {K : Type ℓ} {V : Type κ} (P : K → V → Type μ) (Q : K → V → Type ν) where
  pub AllEntries-weaken :
      ((k : K) (v : V) → P k v → Q k v) → (d : Dict K V) → AllEntries P d → AllEntries Q d
  AllEntries-weaken f [] h = tt
  AllEntries-weaken f ((k, v) ∷ d) h = (f k v h.0, AllEntries-weaken f d h.1)

  pub AllEntries-both :
      (d : Dict K V) → AllEntries P d → AllEntries Q d → AllEntries (λ k v. P k v × Q k v) d
  AllEntries-both [] h g = tt
  AllEntries-both ((k, v) ∷ d) h g = ((h.0, g.0), AllEntries-both d h.1 g.1)

module _ {ℓ κ μ} {K : Type ℓ} {V : Type κ} ⦃e : Eq K⦄ (P : K → V → Type μ) where
  pub AllEntries-insert :
      (k : K) (v : V) (d : Dict K V) → P k v → AllEntries P d → AllEntries P (insert k v d)
  unfolding insert
  AllEntries-insert k v [] p h = (p, tt)
  AllEntries-insert k v ((j, w) ∷ d) p h = elim (Bool-cases (j == k)) [
    | inl same ↦ rw same (rw ((e.beq_iff j k).0 same) p, h.1)
    | inr other ↦ rw other (h.0, AllEntries-insert k v d p h.1)
  ]

  pub AllEntries-lookup :
      (k : K) {v : V} (d : Dict K V) → AllEntries P d → lookup k d ≡ some v → P k v
  unfolding lookup
  AllEntries-lookup k [] h q = absurd (ground arith)
  AllEntries-lookup k {v} ((j, w) ∷ d) h q = elim (Bool-cases (j == k)) [
    | inl same ↦ let r : w ≡ v = ground arith in rw (← (e.beq_iff j k).0 same, ← r) h.0
    | inr other ↦ AllEntries-lookup k d h.1 (ground arith)
  ]

module _ {ℓ κ} {K : Type ℓ} {V : Type κ} where
  pub length-remove_if-le : (q : K → V → Bool) (d : Dict K V) → length (remove_if q d) ≤ length d
  unfolding remove_if
  length-remove_if-le q [] = omega arith
  length-remove_if-le q ((k, v) ∷ d) = ground (arith, length-remove_if-le q d)

  pub length-map_values : (f : V → V) (d : Dict K V) → length (map_values f d) ≡ length d
  length-map_values f [] = refl
  length-map_values f ((k, v) ∷ d) = ap suc (length-map_values f d)

module _ {ℓ κ} {K : Type ℓ} {V : Type κ} ⦃e : Eq K⦄ where
  pub length-erase-lt : (k : K) (d : Dict K V) → has_key k d ≡ true → length (erase k d) < length d
  unfolding remove_if lookup
  length-erase-lt k [] h = absurd (ground arith)
  length-erase-lt k ((j, w) ∷ d) h =
      ground (arith, length-remove_if-le (λ j _. j == k) d, length-erase-lt k d)

  pub length-insert-le : (k : K) (v : V) (d : Dict K V) → length (insert k v d) ≤ length d + 1
  unfolding insert
  length-insert-le k v [] = omega arith
  length-insert-le k v ((j, w) ∷ d) = ground (arith, length-insert-le k v d)

  pub lookup-map_values :
      (f : V → V) (k : K) (d : Dict K V) → lookup k (map_values f d) ≡ Option.map f (lookup k d)
  unfolding lookup
  lookup-map_values f k [] = refl
  lookup-map_values f k ((j, w) ∷ d) = ground (arith, lookup-map_values f k d)
