-- ===== src/VirusTotal/Client/Once.antt =====
-- What a lookup promises: it ends, it keeps to the limits, and it asks for each hash once.
use sentinel_antivirus.Prelude.{
  ℕ, ◌+◌, ◌<◌, ◌≡◌, refl, sym, ap, ◌∙◌, inl, inr, true, none, some, ◌==◌, nat_eq, pair_eq,
  Bool-cases, Option-cases, length, IfAny, IfAny-some, Text, text_eq,
}
use mathlib.Core.Option
use sentinel_antivirus.Dict.{lookup}
use sentinel_antivirus.Builtins.{Python}
use sentinel_antivirus.VirusTotal.Client.{
  Client, HashVerdict, Answer, Chance, Looked, silent, send, normalize_hash, get_cached, query,
  lookup_hash,
}
use sentinel_antivirus.VirusTotal.Client.Lookup.{
  IsDue, asked, query-IsDue, query-cached, query-cases, wait-total,
}

query-total :
    (ch : Chance) (answer : Answer) (now : ℕ) (h : Text) (c : Client)
    → 0 < c.token_bucket.capacity
    → (r : Looked) × (query ch answer now h c ≡ some r)
query-total ch answer now h c b = elim (query-cases ch answer now h c) [
  | inl e ↦ (silent c none, e)
  | inr (k, o, e) ↦
      let (x, w) = wait-total ch 30000 now (asked c) b in
      (send ch answer h x, e ∙ ap (Option.map (send ch answer h)) w)
]

abbrev hit : Client → Client
hit c = record c { cache_hits = c.cache_hits + 1 }

abbrev from_cache : HashVerdict → HashVerdict
from_cache v = record v { from_cache = true }

get_cached-hit :
    (py : Python) (sha256 : Text) (c : Client) {v : HashVerdict}
    → lookup (normalize_hash py sha256) c.cache ≡ some v
    → get_cached py sha256 c ≡ (hit c, some (from_cache v))
unfolding get_cached
get_cached-hit py sha256 c e = rw (get_cached, e) refl

get_cached-miss :
    (py : Python) (sha256 : Text) (c : Client)
    → lookup (normalize_hash py sha256) c.cache ≡ none
    → get_cached py sha256 c ≡ (c, none)
unfolding get_cached
get_cached-miss py sha256 c e = rw (get_cached, e) refl

lookup_hash-hit :
    (py : Python) (ch : Chance) (answer : Answer) (now : ℕ) (sha256 : Text) (c : Client)
    {v : HashVerdict}
    → (length (normalize_hash py sha256) == 64) ≡ true
    → lookup (normalize_hash py (normalize_hash py sha256)) c.cache ≡ some v
    → lookup_hash py ch answer now sha256 c ≡ some (silent (hit c) (some (from_cache v)))
unfolding lookup_hash
lookup_hash-hit py ch answer now sha256 c full e =
    let m = get_cached-hit py (normalize_hash py sha256) c e in rw (lookup_hash, full, m, m) refl

lookup_hash-miss :
    (py : Python) (ch : Chance) (answer : Answer) (now : ℕ) (sha256 : Text) (c : Client)
    → (length (normalize_hash py sha256) == 64) ≡ true
    → lookup (normalize_hash py (normalize_hash py sha256)) c.cache ≡ none
    → lookup_hash py ch answer now sha256 c ≡ query ch answer now (normalize_hash py sha256) c
unfolding lookup_hash
lookup_hash-miss py ch answer now sha256 c full e =
    let m = get_cached-miss py (normalize_hash py sha256) c e in rw (lookup_hash, full, m, m) refl

-- The three ways of a lookup: no hash, a hash in the cache, and a query
pub data Ways (py : Python) (ch : Chance) (answer : Answer) (now : ℕ) (sha256 : Text) (c : Client)
    : Type 0 where
  malformed :
      lookup_hash py ch answer now sha256 c ≡ some (silent c none) → Ways py ch answer now sha256 c
  cached :
      (v : HashVerdict)
      → (length (normalize_hash py sha256) == 64) ≡ true
      → lookup (normalize_hash py (normalize_hash py sha256)) c.cache ≡ some v
      → lookup_hash py ch answer now sha256 c ≡ some (silent (hit c) (some (from_cache v)))
      → Ways py ch answer now sha256 c
  queried :
      (length (normalize_hash py sha256) == 64) ≡ true
      → lookup (normalize_hash py (normalize_hash py sha256)) c.cache ≡ none
      → lookup_hash py ch answer now sha256 c ≡ query ch answer now (normalize_hash py sha256) c
      → Ways py ch answer now sha256 c

pub ways :
    (py : Python) (ch : Chance) (answer : Answer) (now : ℕ) (sha256 : Text) (c : Client)
    → Ways py ch answer now sha256 c
unfolding lookup_hash
ways py ch answer now sha256 c = elim (Bool-cases (length (normalize_hash py sha256) == 64)) [
  | inr other ↦ malformed (rw (lookup_hash, other) refl)
  | inl full ↦ elim (Option-cases (lookup (normalize_hash py (normalize_hash py sha256)) c.cache)) [
    | inl e ↦ queried full e (lookup_hash-miss py ch answer now sha256 c full e)
    | inr (v, e) ↦ cached v full e (lookup_hash-hit py ch answer now sha256 c full e)
  ]
]

-- A lookup ends, whatever the clock, the bucket and the network do, as long as the bucket can hold
-- a token.
pub lookup_hash-total :
    (py : Python) (ch : Chance) (answer : Answer) (now : ℕ) (sha256 : Text) (c : Client)
    → 0 < c.token_bucket.capacity
    → (r : Looked) × (lookup_hash py ch answer now sha256 c ≡ some r)
lookup_hash-total py ch answer now sha256 c b = elim (ways py ch answer now sha256 c) [
  | malformed e ↦ (_, e)
  | cached v full f e ↦ (_, e)
  | queried full f e ↦
      let (r, q) = query-total ch answer now (normalize_hash py sha256) c b in (r, e ∙ q)
]

-- A request goes out only for a hash of 64 characters that is not in the cache, with an API key,
-- not while offline, not before the backoff ends, and an interval after the last request.
pub lookup_hash-IsDue :
    (py : Python) (ch : Chance) (answer : Answer) (now : ℕ) (sha256 : Text) (c : Client)
    {r : Looked} {t : ℕ}
    → lookup_hash py ch answer now sha256 c ≡ some r
    → r.request ≡ some t
    → (length (normalize_hash py sha256) ≡ 64)
      × (lookup (normalize_hash py (normalize_hash py sha256)) c.cache ≡ none)
      × IsDue now c t
lookup_hash-IsDue py ch answer now sha256 c {r} {t} h q = elim (ways py ch answer now sha256 c) [
  | malformed e ↦ absurd (cc)
  | cached v full f e ↦ absurd (cc)
  | queried full f e ↦ (
    (nat_eq.beq_iff (length (normalize_hash py sha256)) 64).0 full,
    f,
    IfAny-some (IsDue now c)
        (IfAny-some (λ r. IfAny (IsDue now c) r.request)
          (query-IsDue ch answer now (normalize_hash py sha256) c) (sym e ∙ h))
        q,
  )
]

query-keeps :
    (py : Python) (ch : Chance) (answer : Answer) (now : ℕ) (sha256 : Text) (c : Client)
    {r : Looked} {v : HashVerdict}
    → normalize_hash py (normalize_hash py sha256) ≡ normalize_hash py sha256
    → query ch answer now (normalize_hash py sha256) c ≡ some r
    → r.verdict ≡ some v
    → lookup (normalize_hash py (normalize_hash py sha256)) r.client.cache ≡ some v
query-keeps py ch answer now sha256 c {r} idem h w =
    let n = normalize_hash py sha256 in
    rw idem (
      IfAny-some (λ u. lookup n r.client.cache ≡ some u)
        (IfAny-some (λ q. IfAny (λ u. lookup n q.client.cache ≡ some u) q.verdict)
          (query-cached ch answer now n c) h)
        w)

-- A lookup of the hash answers from the cache with this verdict.
abbrev pub Answered : Python → Chance → Answer → ℕ → Text → Client → HashVerdict → Type 0
Answered py ch answer now sha256 c v =
    lookup_hash py ch answer now sha256 c ≡ some (silent (hit c) (some (from_cache v)))

-- A hash whose lookup gave a verdict is not asked for again: every later lookup gives that verdict
-- from the cache, without a request, as long as a normalized hash stays as it is.
pub lookup_hash-once :
    (py : Python) (ch ch' : Chance) (answer answer' : Answer) (now later : ℕ) (sha256 : Text)
    (c : Client) {r : Looked} {v : HashVerdict}
    → normalize_hash py (normalize_hash py sha256) ≡ normalize_hash py sha256
    → lookup_hash py ch answer now sha256 c ≡ some r
    → r.verdict ≡ some v
    → lookup_hash py ch' answer' later sha256 r.client
      ≡ some (silent (hit r.client) (some (from_cache v)))
lookup_hash-once py ch ch' answer answer' now later sha256 c {r} {v} idem h w =
    elim (ways py ch answer now sha256 c) [
      | malformed e ↦ absurd (cc)
      | cached v' full f e ↦
          IfAny-some (λ q. q.verdict ≡ some v → Answered py ch' answer' later sha256 q.client v)
            (λ g.
              IfAny-some (Answered py ch' answer' later sha256 (hit c))
                (lookup_hash-hit py ch' answer' later sha256 (hit c) {v = v'} full f) g)
            (sym e ∙ h) w
      | queried full f e ↦
          lookup_hash-hit py ch' answer' later sha256 r.client {v = v} full
            (query-keeps py ch answer now sha256 c idem (sym e ∙ h) w)
    ]
