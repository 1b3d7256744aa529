-- ===== src/Heuristics/Network/Beacon.antt =====
-- What the beacon detector reports.
use sentinel_antivirus.Prelude.{
  inr, ◌-◌, ◌≡◌, inl, leb, Bool-cases, ℕ, ◌+◌, ◌*◌, ◌≤◌, List, [], ◌∷◌, arith, nat_eq, pair_eq,
  length, sum, text_eq,
}
use sentinel_antivirus.Heuristics.Network.{squares}

ordered_squares : (a k : ℕ) → 2 * (a * (a + k)) ≤ a * a + (a + k) * (a + k)
ordered_squares a k = omega arith

-- 2 a b ≤ a² + b²
two_squares : (a b : ℕ) → 2 * (a * b) ≤ a * a + b * b
two_squares a b = elim (Bool-cases (leb a b)) [
  | inl le ↦ let e : b ≡ a + (b - a) = ground arith in rw e (ordered_squares a (b - a))
  | inr gt ↦
      let e : a ≡ b + (a - b) = ground arith in rw e (omega (arith, ordered_squares b (a - b)))
]

-- 2 d S ≤ n d² + Q
cross_term : (d : ℕ) (ds : List ℕ) → 2 * (d * sum ds) ≤ length ds * (d * d) + sum (squares ds)
cross_term d [] = omega arith
cross_term d (x ∷ ds) = omega (arith, cross_term d ds, two_squares d x)

-- The sum of n intervals squared is at most n times the sum of their squares, so that the variance
-- of the model is never cut off at 0.
pub variance_nonneg : (ds : List ℕ) → sum ds * sum ds ≤ length ds * sum (squares ds)
variance_nonneg [] = omega arith
variance_nonneg (d ∷ ds) = omega (arith, variance_nonneg ds, cross_term d ds)
