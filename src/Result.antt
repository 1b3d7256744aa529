-- ===== src/Result.antt =====
-- Python's exceptions as values. A pure function that may raise returns a `Result`.
use sentinel_antivirus.Prelude.{Option, none, some, ◌≡◌, refl, ◌⊎◌, inl, inr}

pub data Error : Type 0 where
  value_error type_error rule_syntax_error os_error attribute_error runtime_error : Error

pub data Result {ℓ} (T : Type ℓ) : Type ℓ where
  ok : T → Result T
  err : Error → Result T

-- A missing required argument is a `TypeError`.
abbrev pub required {ℓ} : {T : Type ℓ} → Option T → Result T
required none = err type_error
required (some x) = ok x

pub Result-cases {ℓ} :
    {T : Type ℓ} (r : Result T) → ((x : T) × (r ≡ ok x)) ⊎ ((e : Error) × (r ≡ err e))
Result-cases (ok x) = inl (x, refl)
Result-cases (err e) = inr (e, refl)

pub ok-injective {ℓ} : {T : Type ℓ} (x y : T) → ok x ≡ ok y → x ≡ y
ok-injective x y e = cc

-- The statements after a call that may raise
infixl 5 ◌>>=◌
abbrev pub ◌>>=◌ {ℓ κ} : {S : Type ℓ} {T : Type κ} → Result S → (S → Result T) → Result T
ok x >>= k = k x
err e >>= k = err e

module _ {ℓ κ} {S : Type ℓ} {T : Type κ} where
  pub bind_congr :
      (r : Result S) (k l : S → Result T) → ((x : S) → k x ≡ l x) → (r >>= k) ≡ (r >>= l)
  bind_congr (err e) k l h = refl
  bind_congr (ok x) k l h = h x

  pub bind_assoc {μ} :
      {U : Type μ} (r : Result S) (k : S → Result T) (l : T → Result U)
      → (r >>= k >>= l) ≡ (r >>= λ x. k x >>= l)
  bind_assoc (err e) k l = refl
  bind_assoc (ok x) k l = refl
