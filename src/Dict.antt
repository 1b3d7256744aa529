-- ===== src/Dict.antt =====
-- Python's `dict` in insertion order, and `set`, over keys with an equality test.
pub mod Entries
pub mod Unique
use sentinel_antivirus.Prelude.{
  ◌+◌, ◌≡◌, refl, Bool, true, false, Option, none, some, List, [], ◌∷◌, arith, Eq, ◌==◌,
  if◌then◌else◌, not, ◌&&◌, ◌||◌, map, Bool-cases, inl, inr, length,
}

abbrev pub Dict {ℓ κ} : Type ℓ → Type κ → Type (ℓ ⊔ κ)
Dict K V = List (K × V)

module _ {ℓ κ} {K : Type ℓ} {V : Type κ} where
  -- `list(d)`
  abbrev pub keys : Dict K V → List K
  keys = map (λ e. e.0)

  abbrev pub values : Dict K V → List V
  values = map (λ e. e.1)

  -- `d[k] = f(v)` for each `(k, v)` in `d`
  abbrev pub map_values : (V → V) → Dict K V → Dict K V
  map_values f [] = []
  map_values f ((k, v) ∷ d) = (k, f v) ∷ map_values f d

  -- `del d[k]` for each entry of `d` that passes the test
  unfoldable pub remove_if : (K → V → Bool) → Dict K V → Dict K V
  remove_if p [] = []
  remove_if p ((k, v) ∷ d) = let rest = remove_if p d in if p k v then rest else (k, v) ∷ rest

module _ {ℓ κ} {K : Type ℓ} {V : Type κ} ⦃e : Eq K⦄ where
  -- `d.get(k)`
  unfoldable pub lookup : K → Dict K V → Option V
  lookup k [] = none
  lookup k ((j, v) ∷ d) = if j == k then some v else lookup k d

  -- `k in d`
  abbrev pub has_key : K → Dict K V → Bool
  has_key k d = elim (lookup k d) [ none ↦ false | some _ ↦ true ]

  -- `d[k] = v`: an old key keeps its place.
  unfoldable pub insert : K → V → Dict K V → Dict K V
  insert k v [] = (k, v) ∷ []
  insert k v ((j, w) ∷ d) = if j == k then (j, v) ∷ d else (j, w) ∷ insert k v d

  -- `d.pop(k, None)`
  abbrev pub erase : K → Dict K V → Dict K V
  erase k d = remove_if (λ j _. j == k) d

  pub lookup-insert :
      (k j : K) (v : V) (d : Dict K V)
      → lookup j (insert k v d) ≡ (if k == j then some v else lookup j d)
  unfolding lookup insert
  lookup-insert k j v [] = refl
  lookup-insert k j v ((i, w) ∷ d) =
      ground (arith, e.beq_iff k j, e.beq_iff i k, e.beq_iff i j, lookup-insert k j v d)

  pub lookup-erase :
      (k j : K) (d : Dict K V) → lookup j (erase k d) ≡ (if k == j then none else lookup j d)
  unfolding lookup remove_if
  lookup-erase k j [] = ground arith
  lookup-erase k j ((i, w) ∷ d) =
      ground (arith, e.beq_iff k j, e.beq_iff i k, e.beq_iff i j, lookup-erase k j d)

  -- Entries whose key passes the test are gone, the others are untouched.
  pub lookup-remove_key :
      (p : K → Bool) (j : K) (d : Dict K V)
      → lookup j (remove_if (λ k _. p k) d) ≡ (if p j then none else lookup j d)
  unfolding lookup remove_if
  lookup-remove_key p j [] = ground arith
  lookup-remove_key p j ((i, w) ∷ d) = ground (arith, e.beq_iff i j, lookup-remove_key p j d)

  pub length-insert_new :
      (k : K) (v : V) (d : Dict K V) → lookup k d ≡ none → length (insert k v d) ≡ length d + 1
  unfolding lookup insert
  length-insert_new k v [] h = refl
  length-insert_new k v ((i, w) ∷ d) h = ground (arith, length-insert_new k v d)

  pub length-insert_old :
      (k : K) (v u : V) (d : Dict K V) → lookup k d ≡ some u → length (insert k v d) ≡ length d
  unfolding lookup insert
  length-insert_old k v u [] h = cc
  length-insert_old k v u ((i, w) ∷ d) h = ground (arith, length-insert_old k v u d)

module _ {ℓ} {K : Type ℓ} ⦃e : Eq K⦄ where
  -- `k in s`
  unfoldable pub member : K → List K → Bool
  member k [] = false
  member k (j ∷ s) = j == k || member k s

  -- `s.add(k)`
  abbrev pub add : K → List K → List K
  add k s = if member k s then s else k ∷ s

  -- `{k for k in s if not p(k)}`
  unfoldable pub discard_if : (K → Bool) → List K → List K
  discard_if p [] = []
  discard_if p (k ∷ s) = let rest = discard_if p s in if p k then rest else k ∷ rest

  -- `s.discard(k)`
  abbrev pub discard : K → List K → List K
  discard k s = discard_if (λ j. j == k) s

  pub member-add : (k j : K) (s : List K) → member j (add k s) ≡ (k == j || member j s)
  unfolding member
  member-add k j s = elim (Bool-cases (member k s)) [
    | inl old ↦ ground (arith, e.beq_iff k j)
    | inr new ↦ ground arith
  ]

  pub member-discard_if :
      (p : K → Bool) (j : K) (s : List K) → member j (discard_if p s) ≡ (not (p j) && member j s)
  unfolding member discard_if
  member-discard_if p j [] = ground arith
  member-discard_if p j (k ∷ s) = ground (arith, e.beq_iff k j, member-discard_if p j s)

  pub member-discard :
      (k j : K) (s : List K) → member j (discard k s) ≡ (not (j == k) && member j s)
  member-discard k j s = member-discard_if (λ i. i == k) j s
