-- ===== src/VirusTotal/Bucket/Rate.antt =====
-- How many tokens the bucket gives out over a series of calls.
use sentinel_antivirus.Prelude.{
  ℕ, zero, suc, ◌+◌, ◌*◌, ◌≤◌, ◌<◌, ◌≡◌, refl, ◌∙◌, Bool, true, false, Option, none, some, List, [],
  ◌∷◌, arith, if◌then◌else◌, ◌==◌, nat_eq, pair_eq, text_eq,
}
use sentinel_antivirus.VirusTotal.Bucket.{
  TokenBucket, new_bucket, refill, Wakeup, nap, acquire_loop, rounds, acquire,
}
use sentinel_antivirus.VirusTotal.Bucket.Total.{
  grants, gives_up, sleeps, acquire_loop-Round, missing, spend,
}

-- A bucket at a time: it was not refilled later, and holds no more than its capacity.
abbrev pub IsValid : ℕ → TokenBucket → Type 0
IsValid now b = (b.last_update ≤ now) × (b.tokens ≤ b.capacity * b.interval)

abbrev pub paid : ℕ → ℕ → Bool → ℕ
paid cost interval granted = if granted then cost * interval else 0

-- What a call leaves of a bucket: a valid one, which has paid for the grant out of what it had and
-- of the time that went by.
abbrev pub Pays : ℕ → ℕ → TokenBucket → Wakeup → Type 0
Pays cost now b w =
    IsValid w.now w.bucket
    × (now ≤ w.now)
    × (w.bucket.interval ≡ b.interval)
    × (w.bucket.capacity ≡ b.capacity)
    × (paid cost b.interval w.granted + w.bucket.tokens + b.last_update
        ≤ b.tokens + w.bucket.last_update)

-- The same of a call that may run out of rounds
abbrev pub PaysIfAny : ℕ → ℕ → TokenBucket → Option Wakeup → Type 0
PaysIfAny cost now b none = Unit
PaysIfAny cost now b (some w) = Pays cost now b w

Pays-after :
    (cost now later : ℕ) (b : TokenBucket) (o : Option Wakeup)
    → IsValid now b
    → now ≤ later
    → PaysIfAny cost later (refill now b) o
    → PaysIfAny cost now b o
unfolding refill
Pays-after cost now later b none v l p = tt
Pays-after cost now later b (some w) v l p =
    (p.0, omega (arith, p.1), p.2, p.3, omega (arith, p.4, v.0, v.1))

refill-IsValid : (now later : ℕ) (b : TokenBucket) → now ≤ later → IsValid later (refill now b)
unfolding refill
refill-IsValid now later b l = (l, omega arith)

grant-Pays :
    (cost now : ℕ) (b : TokenBucket)
    → IsValid now b
    → cost * b.interval ≤ (refill now b).tokens
    → Pays cost now b (record { granted = true; now = now; bucket = spend cost now b })
unfolding refill
grant-Pays cost now b v h =
    ((omega arith, omega arith), omega arith, refl, refl, omega (arith, v.0, v.1))

refusal-Pays :
    (cost now : ℕ) (b : TokenBucket)
    → IsValid now b
    → Pays cost now b (record { granted = false; now = now; bucket = refill now b })
unfolding refill
refusal-Pays cost now b v =
    ((omega arith, omega arith), omega arith, refl, refl, omega (arith, v.0, v.1))

acquire_loop-Pays :
    (lag : ℕ → ℕ) (fuel cost deadline now : ℕ) (b : TokenBucket)
    → IsValid now b
    → PaysIfAny cost now b (acquire_loop lag fuel cost deadline now b)
unfolding acquire_loop
acquire_loop-Pays lag zero cost deadline now b v = tt
acquire_loop-Pays lag (suc fuel) cost deadline now b v =
    elim (acquire_loop-Round lag fuel cost deadline now b) [
      | grants enough e ↦ rw e (grant-Pays cost now b v enough)
      | gives_up e ↦ rw e (refusal-Pays cost now b v)
      | sleeps s t e ↦
          let later = now + nap (missing cost now b) + lag fuel in
          rw e (
            Pays-after cost now later b (acquire_loop lag fuel cost deadline later (refill now b)) v
              (omega arith)
              (acquire_loop-Pays lag fuel cost deadline later (refill now b)
                (refill-IsValid now later b (omega arith))))
    ]

-- A call pays for what it grants.
pub acquire-Pays :
    (lag : ℕ → ℕ) (cost timeout now : ℕ) (b : TokenBucket)
    → 0 < b.interval
    → IsValid now b
    → PaysIfAny cost now b (acquire lag cost timeout now b)
unfolding acquire
acquire-Pays lag cost timeout now b z v =
    rw (limited b.interval z) (acquire_loop-Pays lag (rounds timeout) cost (now + timeout) now b v)
  where
    limited : (i : ℕ) → 0 < i → (i == 0) ≡ false
    limited i h = ground arith

-- Calls of `acquire` for one token, each some time after the one before, with the lags of its
-- sleeps: how many were granted, when, and the bucket.
pub record Calls : Type 0 where
  pub granted : ℕ
  pub now : ℕ
  pub bucket : TokenBucket

abbrev pub call : ℕ → Option Wakeup → Calls → Calls
call later none c = c
call later (some w) c = record {
  granted = (if w.granted then 1 else 0) + c.granted;
  now = w.now;
  bucket = w.bucket;
}

unfoldable pub run : ℕ → List (ℕ × (ℕ → ℕ)) → Calls → Calls
run timeout [] c = c
run timeout ((idle, lag) ∷ rest) c =
    run timeout rest (call (c.now + idle) (acquire lag 1 timeout (c.now + idle) c.bucket) c)

-- What holds between two calls, from the start with so many tokens at the time `t`
abbrev IsPaid : ℕ → ℕ → ℕ → ℕ → Calls → Type 0
IsPaid capacity interval tokens t c =
    IsValid c.now c.bucket
    × (c.bucket.interval ≡ interval)
    × (c.bucket.capacity ≡ capacity)
    × (c.granted * interval + c.bucket.tokens + t ≤ tokens + c.bucket.last_update)

add_paid :
    (g : Bool) (n i x y t l u total : ℕ)
    → paid 1 i g + x + l ≤ y + u
    → n * i + y + t ≤ total + l
    → ((if g then 1 else 0) + n) * i + x + t ≤ total + u
add_paid true n i x y t l u total p q = omega arith
add_paid false n i x y t l u total p q = omega arith

call-IsPaid :
    (capacity interval tokens t later : ℕ) (o : Option Wakeup) (c : Calls)
    → IsPaid capacity interval tokens t c
    → c.now ≤ later
    → PaysIfAny 1 later c.bucket o
    → IsPaid capacity interval tokens t (call later o c)
call-IsPaid capacity interval tokens t later none c h l p = h
call-IsPaid capacity interval tokens t later (some w) c h l p = (
  p.0,
  p.2 ∙ h.1,
  p.3 ∙ h.2,
  add_paid w.granted c.granted interval w.bucket.tokens c.bucket.tokens t c.bucket.last_update
      w.bucket.last_update tokens (rw h.1 at p.4) h.3,
)

run-IsPaid :
    (capacity interval tokens t timeout : ℕ) (cs : List (ℕ × (ℕ → ℕ))) (c : Calls)
    → 0 < interval
    → IsPaid capacity interval tokens t c
    → IsPaid capacity interval tokens t (run timeout cs c)
unfolding run
run-IsPaid capacity interval tokens t timeout [] c z h = h
run-IsPaid capacity interval tokens t timeout ((idle, lag) ∷ cs) c z h =
    let later = c.now + idle in
    run-IsPaid capacity interval tokens t timeout cs
      (call later (acquire lag 1 timeout later c.bucket) c) z
      (call-IsPaid capacity interval tokens t later (acquire lag 1 timeout later c.bucket) c h
        (omega arith)
        (acquire-Pays lag 1 timeout later c.bucket (omega (arith, h.1))
          (omega (arith, h.0), h.0.1)))

-- No call yet, and a new bucket
abbrev pub no_calls : ℕ → ℕ → ℕ → Calls
no_calls capacity interval t = record {
  granted = 0;
  now = t;
  bucket = new_bucket capacity interval t;
}

-- Of a new bucket, however its callers wait: the tokens that it grants are at most its capacity and
-- one for each interval that has gone by.
pub run-granted :
    (capacity interval t timeout : ℕ) (cs : List (ℕ × (ℕ → ℕ)))
    → 0 < interval
    → (run timeout cs (no_calls capacity interval t)).granted * interval + t
      ≤ capacity * interval + (run timeout cs (no_calls capacity interval t)).now
unfolding new_bucket
run-granted capacity interval t timeout cs z =
    let h =
      run-IsPaid capacity interval (capacity * interval) t timeout cs (no_calls capacity interval t)
        z ((omega arith, omega arith), refl, refl, omega arith) in
    omega (arith, h.0, h.3)
