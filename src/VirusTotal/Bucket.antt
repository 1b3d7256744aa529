-- ===== src/VirusTotal/Bucket.antt =====
-- `TokenBucket` of sentinel/intel/virustotal_client.py. The refill rate is one token in `interval`
-- milliseconds, so tokens are counted in milliseconds: one token is `interval` of them. `interval`
-- 0 stands for a rate of 1000 tokens a second or more, where nothing is counted.
pub mod Rate
pub mod Total
use sentinel_antivirus.Prelude.{
  ℕ, zero, suc, ◌+◌, ◌-◌, ◌*◌, ◌/◌, min, Bool, true, false, Option, none, some, ltb, leb,
  if◌then◌else◌, ◌==◌, nat_eq,
}

pub record TokenBucket : Type 0 where
  pub capacity : ℕ
  pub interval : ℕ
  pub tokens : ℕ
  pub last_update : ℕ

-- `TokenBucket(capacity, 1 / interval)` made at the time `now`
unfoldable pub new_bucket : ℕ → ℕ → ℕ → TokenBucket
new_bucket capacity interval now = record {
  capacity = capacity;
  interval = interval;
  tokens = capacity * interval;
  last_update = now;
}

-- The refill at the head of each round. A clock that goes back takes tokens away.
unfoldable pub refill : ℕ → TokenBucket → TokenBucket
refill now b = record b {
  tokens = min (b.capacity * b.interval) (b.tokens + now - b.last_update);
  last_update = now;
}

-- The clock during a wait: sleeping takes the time asked for and `lag` more.
pub record Wakeup : Type 0 where
  pub granted : Bool
  pub now : ℕ
  pub bucket : TokenBucket

-- The sleeps of `acquire` are cut into a quarter of a second.
abbrev pub nap : ℕ → ℕ
nap wait = min wait 250

-- The loop of `acquire`, on fuel: each round takes tokens, gives up, or sleeps. `lag n` is how much
-- longer than asked for the sleep lasts after which n rounds are left.
unfoldable pub acquire_loop : (ℕ → ℕ) → ℕ → ℕ → ℕ → ℕ → TokenBucket → Option Wakeup
acquire_loop lag zero cost deadline now b = none
acquire_loop lag (suc fuel) cost deadline now b =
    let r = refill now b in
    let wait = cost * b.interval - r.tokens in
    let rest = acquire_loop lag fuel cost deadline (now + nap wait + lag fuel) r in
    if leb (cost * b.interval) r.tokens
    then some (record {
      granted = true;
      now = now;
      bucket = record r { tokens = r.tokens - cost * b.interval };
    })
    else if ltb deadline (now + wait)
    then some (record { granted = false; now = now; bucket = r })
    else rest

-- The rounds that are enough for a timeout
unfoldable pub rounds : ℕ → ℕ
rounds timeout = suc (timeout / 250 + 2)

-- `acquire`
unfoldable pub acquire : (ℕ → ℕ) → ℕ → ℕ → ℕ → TokenBucket → Option Wakeup
unfolding acquire_loop rounds
acquire lag cost timeout now b =
    if b.interval == 0
    then some (record { granted = true; now = now; bucket = b })
    else acquire_loop lag (rounds timeout) cost (now + timeout) now b

-- `available_tokens`, in milliseconds of refill
unfoldable pub available_tokens : ℕ → TokenBucket → ℕ
unfolding refill
available_tokens now b = (refill now b).tokens
