-- ===== src/VirusTotal/Client/Room.antt =====
-- A lookup leaves the capacity of the client's bucket as it is.
use sentinel_antivirus.Prelude.{
  ℕ, zero, suc, ◌+◌, ◌≡◌, refl, ◌∙◌, inl, inr, Bool, true, false, ltb, ◌==◌, nat_eq, Bool-cases,
  IfAny, IfAny-weaken, IfAny-map, Text,
}
use sentinel_antivirus.Builtins.{Python}
use sentinel_antivirus.VirusTotal.Bucket.{TokenBucket, refill, nap, acquire_loop, rounds, acquire}
use sentinel_antivirus.VirusTotal.Bucket.Total.{
  grants, gives_up, sleeps, acquire_loop-Round, missing,
}
use sentinel_antivirus.VirusTotal.Client.{
  Client, Answer, unreachable, not_found, too_many, refused, found, Chance, send, store_cache,
  after_backoff, after_interval, wait_for_rate_limit, handle_answer, query, lookup_hash,
  normalize_hash,
}
use sentinel_antivirus.VirusTotal.Client.Lookup.{asked, query-cases}
use sentinel_antivirus.VirusTotal.Client.Once.{ways, malformed, cached, queried}

-- The capacity of the bucket of a client
abbrev room : Client → ℕ
room c = c.token_bucket.capacity

acquire_loop-capacity :
    (lag : ℕ → ℕ) (fuel cost deadline now : ℕ) (b : TokenBucket)
    → IfAny (λ w. w.bucket.capacity ≡ b.capacity) (acquire_loop lag fuel cost deadline now b)
unfolding acquire_loop refill
acquire_loop-capacity lag zero cost deadline now b = tt
acquire_loop-capacity lag (suc fuel) cost deadline now b =
    elim (acquire_loop-Round lag fuel cost deadline now b) [
      | grants enough e ↦ rw e refl
      | gives_up e ↦ rw e refl
      | sleeps s t e ↦
          let later = now + nap (missing cost now b) + lag fuel in
          rw e (acquire_loop-capacity lag fuel cost deadline later (refill now b))
    ]

acquire-capacity :
    (lag : ℕ → ℕ) (cost timeout now : ℕ) (b : TokenBucket)
    → IfAny (λ w. w.bucket.capacity ≡ b.capacity) (acquire lag cost timeout now b)
unfolding acquire
acquire-capacity lag cost timeout now b = elim (Bool-cases (b.interval == 0)) [
  | inl free ↦ rw free refl
  | inr limited ↦ rw limited (acquire_loop-capacity lag (rounds timeout) cost (now + timeout) now b)
]

wait-room :
    (ch : Chance) (timeout now : ℕ) (c : Client)
    → IfAny (λ x. room x.0 ≡ room c) (wait_for_rate_limit ch timeout now c)
unfolding wait_for_rate_limit
wait-room ch timeout now c = elim (Bool-cases (ltb (now + timeout) c.backoff_until)) [
  | inl long ↦ rw (wait_for_rate_limit, long) refl
  | inr short ↦
      let t = after_interval ch (after_backoff ch now c) c in
      rw (wait_for_rate_limit, short)
        (IfAny-map (λ x. room x.0 ≡ room c) _ (acquire ch.bucket_lag 1 timeout t c.token_bucket)
          (acquire-capacity ch.bucket_lag 1 timeout t c.token_bucket))
]

handle_answer-room :
    (ch : Chance) (now : ℕ) (h : Text) (answer : Answer) (c : Client)
    → room (handle_answer ch now h answer c).0 ≡ room c
unfolding handle_answer store_cache
handle_answer-room ch now h unreachable c = refl
handle_answer-room ch now h not_found c = refl
handle_answer-room ch now h too_many c = refl
handle_answer-room ch now h refused c = refl
handle_answer-room ch now h (found stats) c = refl

send-room :
    (ch : Chance) (answer : Answer) (h : Text) (x : Client × Bool × ℕ)
    → room (send ch answer h x).client ≡ room x.0
unfolding send
send-room ch answer h (c, true, now) = handle_answer-room ch now h answer c
send-room ch answer h (c, false, now) = refl

query-room :
    (ch : Chance) (answer : Answer) (now : ℕ) (h : Text) (c : Client)
    → IfAny (λ r. room r.client ≡ room c) (query ch answer now h c)
query-room ch answer now h c = elim (query-cases ch answer now h c) [
  | inl e ↦ rw e refl
  | inr (k, o, e) ↦ rw e (
      IfAny-map (λ r. room r.client ≡ room c) (send ch answer h)
        (wait_for_rate_limit ch 30000 now (asked c))
        (IfAny-weaken (λ x. room x.0 ≡ room c) _ (wait_for_rate_limit ch 30000 now (asked c))
          (λ x w. send-room ch answer h x ∙ w) (wait-room ch 30000 now (asked c))))
]

pub lookup_hash-capacity :
    (py : Python) (ch : Chance) (answer : Answer) (now : ℕ) (sha256 : Text) (c : Client)
    → IfAny
        (λ r. r.client.token_bucket.capacity ≡ c.token_bucket.capacity)
        (lookup_hash py ch answer now sha256 c)
lookup_hash-capacity py ch answer now sha256 c = elim (ways py ch answer now sha256 c) [
  | malformed e ↦ rw e refl
  | cached v full f e ↦ rw e refl
  | queried full f e ↦ rw e (query-room ch answer now (normalize_hash py sha256) c)
]
