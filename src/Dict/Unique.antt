-- ===== src/Dict/Unique.antt =====
-- A dict holds each key once: the invariant of the representation, kept by every update, and what a
-- lookup finds after a removal that looks at the values.
use sentinel_antivirus.Prelude.{
  ◌≡◌, refl, inl, inr, Bool, Option, none, some, [], ◌∷◌, arith, if◌then◌else◌, Eq, ◌==◌, nat_eq,
  pair_eq, Bool-cases, beq_refl, text_eq,
}
use sentinel_antivirus.Dict.{Dict, map_values, remove_if, lookup, insert, lookup-insert}
use sentinel_antivirus.Dict.Entries.{AllEntries, AllEntries-weaken}

module _ {ℓ κ} {K : Type ℓ} {V : Type κ} ⦃e : Eq K⦄ where
  abbrev pub IsDict : Dict K V → Type κ
  IsDict [] = Unit
  IsDict ((k, v) ∷ d) = (lookup k d ≡ none) × IsDict d

  lookup-remove_if-none :
      (p : K → V → Bool) (k : K) (d : Dict K V)
      → lookup k d ≡ none
      → lookup k (remove_if p d) ≡ none
  unfolding lookup remove_if
  lookup-remove_if-none p k [] h = refl
  lookup-remove_if-none p k ((j, w) ∷ d) h = ground (arith, lookup-remove_if-none p k d)

  pub IsDict-remove_if : (p : K → V → Bool) (d : Dict K V) → IsDict d → IsDict (remove_if p d)
  unfolding remove_if
  IsDict-remove_if p [] h = tt
  IsDict-remove_if p ((j, w) ∷ d) h = elim (Bool-cases (p j w)) [
    | inl out ↦ rw out (IsDict-remove_if p d h.1)
    | inr stays ↦ rw stays (lookup-remove_if-none p j d h.0, IsDict-remove_if p d h.1)
  ]

  pub IsDict-insert : (k : K) (v : V) (d : Dict K V) → IsDict d → IsDict (insert k v d)
  unfolding insert
  IsDict-insert k v [] h = (unfold lookup in refl, tt)
  IsDict-insert k v ((j, w) ∷ d) h = elim (Bool-cases (j == k)) [
    | inl same ↦ rw same h
    | inr other ↦ rw other (
      ground (arith, lookup-insert k j v d, e.beq_iff j k, e.beq_iff k j),
      IsDict-insert k v d h.1,
    )
  ]

  lookup-map_values-none :
      (f : V → V) (k : K) (d : Dict K V) → lookup k d ≡ none → lookup k (map_values f d) ≡ none
  unfolding lookup
  lookup-map_values-none f k [] h = refl
  lookup-map_values-none f k ((j, w) ∷ d) h = ground (arith, lookup-map_values-none f k d)

  pub IsDict-map_values : (f : V → V) (d : Dict K V) → IsDict d → IsDict (map_values f d)
  IsDict-map_values f [] h = tt
  IsDict-map_values f ((j, w) ∷ d) h = (lookup-map_values-none f j d h.0, IsDict-map_values f d h.1)

  abbrev pub unless : (K → V → Bool) → K → Option V → Option V
  unless p k none = none
  unless p k (some v) = if p k v then none else some v

  pub lookup-remove_if :
      (p : K → V → Bool) (k : K) (d : Dict K V)
      → IsDict d
      → lookup k (remove_if p d) ≡ unless p k (lookup k d)
  unfolding lookup remove_if
  lookup-remove_if p k [] h = refl
  lookup-remove_if p k ((j, w) ∷ d) h = elim (Bool-cases (j == k)) [
    | inr other ↦ ground (arith, lookup-remove_if p k d h.1)
    | inl same ↦
        let q : j ≡ k = (e.beq_iff j k).0 same in
        let gone : lookup k d ≡ none = rw q at h.0 in
        let rest : lookup k (remove_if p d) ≡ none = lookup-remove_if-none p k d gone in
        ground arith
  ]

  -- In a dict that holds each key once, every entry is what a lookup of its key finds.
  pub IsDict-lookup : (d : Dict K V) → IsDict d → AllEntries (λ k v. lookup k d ≡ some v) d
  unfolding lookup
  IsDict-lookup [] h = tt
  IsDict-lookup ((j, w) ∷ d) h = (
    rw (◌==◌, beq_refl e j) refl,
    AllEntries-weaken (λ k v. lookup k d ≡ some v) (λ k v. lookup k ((j, w) ∷ d) ≡ some v)
        (λ k v q. elim (Bool-cases (j == k)) [
          | inr other ↦ rw other q
          | inl same ↦ absurd (ground (arith, (e.beq_iff j k).0 same, h.0, q))
        ])
        d (IsDict-lookup d h.1),
  )
