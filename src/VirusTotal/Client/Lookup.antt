-- ===== src/VirusTotal/Client/Lookup.antt =====
-- When a lookup sends a request, and that it does so once for each hash.
use sentinel_antivirus.Prelude.{
  ℕ, zero, suc, ◌+◌, ◌≤◌, ◌<◌, ◌≡◌, refl, ◌⊎◌, inl, inr, Bool, true, false, Option, none, some,
  arith, ltb, ◌==◌, nat_eq, pair_eq, Bool-cases, beq_refl, is_empty, IfAny, IfAny-weaken, IfAny-map,
  Text, text_eq,
}
use mathlib.Core.Option
use sentinel_antivirus.Dict.{lookup, lookup-insert}
use sentinel_antivirus.VirusTotal.Bucket.{
  TokenBucket, refill, Wakeup, nap, acquire_loop, rounds, acquire,
}
use sentinel_antivirus.VirusTotal.Bucket.Total.{
  grants, gives_up, sleeps, acquire_loop-Round, missing, acquire-total,
}
use sentinel_antivirus.VirusTotal.Client.{
  Client, Answer, unreachable, not_found, too_many, refused, found, Chance, silent, send,
  store_cache, after_backoff, after_interval, wait_for_rate_limit, handle_answer, query,
  parse_response,
}

acquire_loop-now :
    (lag : ℕ → ℕ) (fuel cost deadline now : ℕ) (b : TokenBucket)
    → IfAny (λ w. now ≤ w.now) (acquire_loop lag fuel cost deadline now b)
unfolding acquire_loop
acquire_loop-now lag zero cost deadline now b = tt
acquire_loop-now lag (suc fuel) cost deadline now b =
    elim (acquire_loop-Round lag fuel cost deadline now b) [
      | grants enough e ↦ rw e (omega arith)
      | gives_up e ↦ rw e (omega arith)
      | sleeps s t e ↦
          let later = now + nap (missing cost now b) + lag fuel in
          rw e (
            IfAny-weaken (λ w. later ≤ w.now) (λ w. now ≤ w.now)
              (acquire_loop lag fuel cost deadline later (refill now b)) (λ w h. omega arith)
              (acquire_loop-now lag fuel cost deadline later (refill now b)))
    ]

-- A wait for a token does not end before it begins.
acquire-now :
    (lag : ℕ → ℕ) (cost timeout now : ℕ) (b : TokenBucket)
    → IfAny (λ w. now ≤ w.now) (acquire lag cost timeout now b)
unfolding acquire
acquire-now lag cost timeout now b = elim (Bool-cases (b.interval == 0)) [
  | inl free ↦ rw free (omega arith)
  | inr limited ↦ rw limited (acquire_loop-now lag (rounds timeout) cost (now + timeout) now b)
]

-- A request that goes out at the time t
abbrev pub IsDue : ℕ → Client → ℕ → Type 0
IsDue now c t =
    (is_empty c.api_key ≡ false)
    × (c.offline_until ≤ now)
    × (c.backoff_until ≤ t)
    × ((0 < c.min_interval) → c.last_request + c.min_interval ≤ t)

abbrev pub asked : Client → Client
asked c = record c { total_queries = c.total_queries + 1 }

pub query-cases :
    (ch : Chance) (answer : Answer) (now : ℕ) (h : Text) (c : Client)
    → (query ch answer now h c ≡ some (silent c none))
      ⊎ ((is_empty c.api_key ≡ false)
          × (c.offline_until ≤ now)
          × (query ch answer now h c
              ≡ Option.map (send ch answer h) (wait_for_rate_limit ch 30000 now (asked c))))
unfolding query
query-cases ch answer now h c = elim (Bool-cases (is_empty c.api_key)) [
  | inl empty ↦ inl (rw (query, empty) refl)
  | inr key ↦ elim (Bool-cases (ltb now c.offline_until)) [
    | inl offline ↦ inl (rw (query, key, offline) refl)
    | inr online ↦ inr (key, ground arith, rw (query, key, online) refl)
  ]
]

-- What the wait leaves: the same cache, and where it allows a request, a time that is due
abbrev Waited : Client → Client × Bool × ℕ → Type 0
Waited c x =
    (x.0.cache ≡ c.cache)
    × (x.1 ≡ true
        → (c.backoff_until ≤ x.2) × (0 < c.min_interval → c.last_request + c.min_interval ≤ x.2))

after_interval-due :
    (ch : Chance) (now : ℕ) (c : Client)
    → (now ≤ after_interval ch now c)
      × (0 < c.min_interval → c.last_request + c.min_interval ≤ after_interval ch now c)
after_interval-due ch now c = (ground arith, λ h. ground arith)

after_backoff-due : (ch : Chance) (now : ℕ) (c : Client) → c.backoff_until ≤ after_backoff ch now c
after_backoff-due ch now c = ground arith

acquired-Waited :
    (ch : Chance) (now : ℕ) (c : Client) (o : Option Wakeup)
    → IfAny (λ w. after_interval ch (after_backoff ch now c) c ≤ w.now) o
    → IfAny (Waited c) (
        Option.map
          (λ w. (
            record c {
              last_request = after_interval ch (after_backoff ch now c) c;
              token_bucket = w.bucket;
            },
            w.granted,
            w.now,
          ))
          o)
acquired-Waited ch now c none h = tt
acquired-Waited ch now c (some w) h =
    let t = after_backoff ch now c in
    let d = after_interval-due ch t c in
    (refl, λ g. (omega (arith, h, d.0, after_backoff-due ch now c), λ z. omega (arith, h, d.1 z)))

wait-Waited :
    (ch : Chance) (timeout now : ℕ) (c : Client)
    → IfAny (Waited c) (wait_for_rate_limit ch timeout now c)
unfolding wait_for_rate_limit
wait-Waited ch timeout now c = elim (Bool-cases (ltb (now + timeout) c.backoff_until)) [
  | inl long ↦ rw (wait_for_rate_limit, long) (refl, λ g. absurd (ground arith))
  | inr short ↦
      let t = after_interval ch (after_backoff ch now c) c in
      rw (wait_for_rate_limit, short)
        (acquired-Waited ch now c (acquire ch.bucket_lag 1 timeout t c.token_bucket)
          (acquire-now ch.bucket_lag 1 timeout t c.token_bucket))
]

send-IsDue :
    (ch : Chance) (answer : Answer) (now : ℕ) (h : Text) (c : Client) (x : Client × Bool × ℕ)
    → is_empty c.api_key ≡ false
    → c.offline_until ≤ now
    → Waited c x
    → IfAny (IsDue now c) (send ch answer h x).request
unfolding send
send-IsDue ch answer now h c (c', true, t) k o w = (k, o, (w.1 refl).0, (w.1 refl).1)
send-IsDue ch answer now h c (c', false, t) k o w = tt

pub query-IsDue :
    (ch : Chance) (answer : Answer) (now : ℕ) (h : Text) (c : Client)
    → IfAny (λ r. IfAny (IsDue now c) r.request) (query ch answer now h c)
query-IsDue ch answer now h c = elim (query-cases ch answer now h c) [
  | inl e ↦ rw e tt
  | inr (k, o, e) ↦ rw e (
      IfAny-map (λ r. IfAny (IsDue now c) r.request) (send ch answer h)
        (wait_for_rate_limit ch 30000 now (asked c))
        (IfAny-weaken (Waited (asked c)) (λ x. IfAny (IsDue now c) (send ch answer h x).request)
          (wait_for_rate_limit ch 30000 now (asked c)) (λ x w. send-IsDue ch answer now h c x k o w)
          (wait-Waited ch 30000 now (asked c))))
]

-- A verdict that a request gives is in the cache.
handle_answer-cached :
    (ch : Chance) (answer : Answer) (now : ℕ) (h : Text) (c : Client)
    → IfAny
        (λ v. lookup h (handle_answer ch now h answer c).0.cache ≡ some v)
        (handle_answer ch now h answer c).1
unfolding handle_answer store_cache parse_response
handle_answer-cached ch unreachable now h c = tt
handle_answer-cached ch too_many now h c = tt
handle_answer-cached ch refused now h c = tt
handle_answer-cached ch not_found now h c =
    rw (lookup-insert h h _ c.cache, ◌==◌, beq_refl text_eq h) refl
handle_answer-cached ch (found stats) now h c =
    rw (lookup-insert h h (parse_response h stats) c.cache, ◌==◌, beq_refl text_eq h) refl

send-cached :
    (ch : Chance) (answer : Answer) (h : Text) (x : Client × Bool × ℕ)
    → IfAny (λ v. lookup h (send ch answer h x).client.cache ≡ some v) (send ch answer h x).verdict
unfolding send
send-cached ch answer h (c, true, t) = handle_answer-cached ch answer t h c
send-cached ch answer h (c, false, t) = tt

pub query-cached :
    (ch : Chance) (answer : Answer) (now : ℕ) (h : Text) (c : Client)
    → IfAny (λ r. IfAny (λ v. lookup h r.client.cache ≡ some v) r.verdict) (query ch answer now h c)
query-cached ch answer now h c = elim (query-cases ch answer now h c) [
  | inl e ↦ rw e tt
  | inr (k, o, e) ↦ rw e (
      IfAny-map (λ r. IfAny (λ v. lookup h r.client.cache ≡ some v) r.verdict) (send ch answer h)
        (wait_for_rate_limit ch 30000 now (asked c))
        (IfAny-weaken (Waited (asked c)) _ (wait_for_rate_limit ch 30000 now (asked c))
          (λ x w. send-cached ch answer h x) (wait-Waited ch 30000 now (asked c))))
]

pub wait-total :
    (ch : Chance) (timeout now : ℕ) (c : Client)
    → 0 < c.token_bucket.capacity
    → (x : Client × Bool × ℕ) × (wait_for_rate_limit ch timeout now c ≡ some x)
unfolding wait_for_rate_limit
wait-total ch timeout now c b = elim (Bool-cases (ltb (now + timeout) c.backoff_until)) [
  | inl long ↦ ((c, false, now), rw (wait_for_rate_limit, long) refl)
  | inr short ↦
      let t = after_interval ch (after_backoff ch now c) c in
      let (w, e) = acquire-total ch.bucket_lag 1 timeout t c.token_bucket (omega arith) in
      (
        (record c { last_request = t; token_bucket = w.bucket }, w.granted, w.now),
        rw (wait_for_rate_limit, short, e) refl,
      )
]
