-- ===== src/VirusTotal/Bucket/Total.antt =====
-- Waiting for a token ends: it is granted or refused within the rounds of `acquire`.
use sentinel_antivirus.Prelude.{
  ℕ, zero, suc, ◌+◌, ◌-◌, ◌*◌, ◌/◌, ◌≤◌, ◌<◌, ◌≡◌, refl, ◌∙◌, ◌⊎◌, inl, inr, true, false, some,
  arith, ltb, leb, ◌==◌, nat_eq, pair_eq, Bool-cases, text_eq,
}
use native.Mathlib.Nat.{mul-le-mul_right}
use sentinel_antivirus.VirusTotal.Bucket.{
  TokenBucket, refill, Wakeup, nap, acquire_loop, rounds, acquire,
}

-- What is missing after the refill, and the bucket after a grant
abbrev pub missing : ℕ → ℕ → TokenBucket → ℕ
missing cost now b = cost * b.interval - (refill now b).tokens

abbrev pub spend : ℕ → ℕ → TokenBucket → TokenBucket
spend cost now b = record (refill now b) { tokens = (refill now b).tokens - cost * b.interval }

-- What a round does
pub data Round (lag : ℕ → ℕ) (fuel cost deadline now : ℕ) (b : TokenBucket) : Type 0 where
  grants :
      cost * b.interval ≤ (refill now b).tokens
      → acquire_loop lag (suc fuel) cost deadline now b
        ≡ some (record { granted = true; now = now; bucket = spend cost now b })
      → Round lag fuel cost deadline now b
  gives_up :
      acquire_loop lag (suc fuel) cost deadline now b
        ≡ some (record { granted = false; now = now; bucket = refill now b })
      → Round lag fuel cost deadline now b
  sleeps :
      (refill now b).tokens < cost * b.interval
      → now + missing cost now b ≤ deadline
      → acquire_loop lag (suc fuel) cost deadline now b
        ≡ acquire_loop lag fuel cost deadline
            (now + nap (missing cost now b) + lag fuel)
            (refill now b)
      → Round lag fuel cost deadline now b

pub acquire_loop-Round :
    (lag : ℕ → ℕ) (fuel cost deadline now : ℕ) (b : TokenBucket)
    → Round lag fuel cost deadline now b
unfolding acquire_loop
acquire_loop-Round lag fuel cost deadline now b =
    elim (Bool-cases (leb (cost * b.interval) (refill now b).tokens)) [
      | inl enough ↦ grants (ground arith) (rw (acquire_loop, enough) refl)
      | inr short ↦ elim (Bool-cases (ltb deadline (now + missing cost now b))) [
        | inl late ↦ gives_up (rw (acquire_loop, short, late) refl)
        | inr early ↦ sleeps (ground arith) (ground arith) (rw (acquire_loop, short, early) refl)
      ]
    ]

-- After a sleep that lasts as long as the wait, the tokens are there.
refill-enough :
    (cost later : ℕ) (now : ℕ) (b : TokenBucket)
    → cost * b.interval ≤ b.capacity * b.interval
    → now + missing cost now b ≤ later
    → cost * b.interval ≤ (refill later (refill now b)).tokens
unfolding refill
refill-enough cost later now b c l = omega arith

acquire_loop-total :
    (lag : ℕ → ℕ) (fuel cost deadline now : ℕ) (b : TokenBucket)
    → cost * b.interval ≤ b.capacity * b.interval
    → (deadline + 250 < now + 250 * suc fuel) ⊎ (cost * b.interval ≤ (refill now b).tokens)
    → (w : Wakeup) × (acquire_loop lag (suc fuel) cost deadline now b ≡ some w)
unfolding refill
acquire_loop-total lag zero cost deadline now b c f =
    elim (acquire_loop-Round lag zero cost deadline now b) [
      | grants h e ↦ (_, e)
      | gives_up e ↦ (_, e)
      | sleeps s t e ↦ absurd (omega arith)
    ]
acquire_loop-total lag (suc fuel) cost deadline now b c f =
    elim (acquire_loop-Round lag (suc fuel) cost deadline now b) [
      | grants h e ↦ (_, e)
      | gives_up e ↦ (_, e)
      | sleeps s t e ↦
          let later = now + nap (missing cost now b) + lag (suc fuel) in
          let (w, r) =
            acquire_loop-total lag fuel cost deadline later (refill now b) c
              (elim (Bool-cases (ltb (missing cost now b) 250)) [
                | inl short ↦ inr (refill-enough cost later now b c (ground arith))
                | inr long ↦ inl (ground arith)
              ]) in
          (w, e ∙ r)
    ]

-- `acquire` returns: for a cost within the capacity it grants or refuses, however long its sleeps
-- last.
pub acquire-total :
    (lag : ℕ → ℕ) (cost timeout now : ℕ) (b : TokenBucket)
    → cost ≤ b.capacity
    → (w : Wakeup) × (acquire lag cost timeout now b ≡ some w)
unfolding acquire rounds
acquire-total lag cost timeout now b c = elim (Bool-cases (b.interval == 0)) [
  | inl free ↦ (record { granted = true; now = now; bucket = b }, rw (acquire, free) refl)
  | inr limited ↦
      let (w, e) =
        acquire_loop-total lag (timeout / 250 + 2) cost (now + timeout) now b
          (mul-le-mul_right b.interval c) (inl (omega arith)) in
      (w, rw (acquire, limited) e)
]
