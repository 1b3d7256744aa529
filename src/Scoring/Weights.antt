-- ===== src/Scoring/Weights.antt =====
-- The weight of signals taken together.
use sentinel_antivirus.Prelude.{◌+◌, ◌≡◌, List, [], ◌∷◌, ◌++◌, arith, nat_eq, pair_eq, text_eq}
use sentinel_antivirus.Scoring.Signals.{Signal, total_weight}

pub total_weight-append :
    (xs ys : List Signal) → total_weight (xs ++ ys) ≡ total_weight xs + total_weight ys
total_weight-append [] ys = omega arith
total_weight-append (x ∷ xs) ys = omega (arith, total_weight-append xs ys)
