-- ===== src/VirusTotal/Client.antt =====
-- `VirusTotalClient` of sentinel/intel/virustotal_client.py: the cache, the limits and the lookup.
-- Times are milliseconds. HTTP is given as the answer to a request.
pub mod Lookup
pub mod Once
pub mod Room
use mathlib.Core.Option
use sentinel_antivirus.Prelude.{
  ℕ, ◌+◌, ◌-◌, ◌*◌, min, max, Bool, true, false, ◌&&◌, not, Option, none, some, ltb, if◌then◌else◌,
  ◌==◌, nat_eq, length, is_empty, sum, Text, codes, text_eq,
}
use sentinel_antivirus.Prelude.{without, ends_with}
use sentinel_antivirus.Dict.{Dict, lookup, insert, values}
use sentinel_antivirus.Builtins.{Python}
use sentinel_antivirus.Authenticode.{Signature, is_authentic}
use sentinel_antivirus.VirusTotal.Bucket.{TokenBucket, acquire}

-- `is_eligible_for_vt_lookup` with a score, in points
unfoldable pub is_eligible_score : ℕ → Bool → Bool
is_eligible_score score is_signed =
    if is_signed && ltb score 25 then false else if score == 0 then false else true

-- `is_eligible_for_vt_lookup` with a path: `none` is no file, or a check that raises.
unfoldable pub is_eligible_path : Option Signature → Bool
is_eligible_path none = true
is_eligible_path (some s) = not (is_authentic s)

pub data Verdict : Type 0 where
  clean malicious unknown : Verdict

-- `HashVerdict`
pub record HashVerdict : Type 0 where
  pub sha256 : Text
  pub verdict : Verdict
  pub positives : Option ℕ
  pub total : Option ℕ
  pub from_cache : Bool

-- `VirusTotalClient`. The cache keeps the verdict of each hash.
pub record Client : Type 0 where
  pub api_key : Text
  pub min_interval : ℕ
  pub cache : Dict Text HashVerdict
  pub last_request : ℕ
  pub token_bucket : TokenBucket
  pub backoff_seconds : ℕ
  pub backoff_until : ℕ
  pub offline_until : ℕ
  pub total_queries : ℕ
  pub cache_hits : ℕ
  pub rate_limit_hits : ℕ
  pub network_errors : ℕ

-- The answer to a request: none, a status, or the statistics of a known hash
pub data Answer : Type 0 where
  unreachable not_found too_many refused : Answer
  found : Dict Text ℕ → Answer

abbrev pub sample_mark : Text
sample_mark = codes " (sample)"

-- `_normalize_hash`
unfoldable pub normalize_hash : Python → Text → Text
unfolding without
normalize_hash py sha256 =
    let h = py.lower (py.strip sha256) in
    if ends_with h sample_mark then without (length h) sample_mark h else h

-- `get_cached`
unfoldable pub get_cached : Python → Text → Client → Client × Option HashVerdict
unfolding normalize_hash
get_cached py sha256 c = elim (lookup (normalize_hash py sha256) c.cache) [
  | none ↦ (c, none)
  | some v ↦ (record c { cache_hits = c.cache_hits + 1 }, some (record v { from_cache = true }))
]

-- `_store_cache`
unfoldable pub store_cache : HashVerdict → Client → Client
store_cache v c = record c { cache = insert v.sha256 v c.cache }

-- `stats.get(key, 0)`
abbrev pub stat : Text → Dict Text ℕ → ℕ
stat key stats = elim (lookup key stats) [ none ↦ 0 | some n ↦ n ]

-- `_parse_response`
unfoldable pub parse_response : Text → Dict Text ℕ → HashVerdict
parse_response h stats =
    let positives = stat (codes "malicious") stats + stat (codes "suspicious") stats in
    record {
      sha256 = h;
      verdict =
          if ltb 0 positives then malicious else if not (is_empty stats) then clean else unknown;
      positives = some positives;
      total = if is_empty stats then none else some (sum (values stats));
      from_cache = false;
    }

abbrev pub unknown_verdict : Text → HashVerdict
unknown_verdict h = record {
  sha256 = h;
  verdict = unknown;
  positives = none;
  total = none;
  from_cache = false;
}

-- How long the sleeps of a lookup overrun, and the jitter, from 0 to 4 seconds with 2 taken off
-- later
pub record Chance : Type 0 where
  pub backoff_lag : ℕ
  pub interval_lag : ℕ
  pub bucket_lag : ℕ → ℕ
  pub jitter : ℕ

-- The clock after the sleep that waits for the end of the backoff
abbrev pub after_backoff : Chance → ℕ → Client → ℕ
after_backoff ch now c = if ltb now c.backoff_until then c.backoff_until + ch.backoff_lag else now

-- The clock after the sleep that keeps requests apart
abbrev pub after_interval : Chance → ℕ → Client → ℕ
after_interval ch now c =
    if ltb 0 c.min_interval && ltb now (c.last_request + c.min_interval)
    then c.last_request + c.min_interval + ch.interval_lag
    else now

-- `_wait_for_rate_limit`: whether a request may go out, and the clock.
unfoldable pub wait_for_rate_limit : Chance → ℕ → ℕ → Client → Option (Client × Bool × ℕ)
wait_for_rate_limit ch timeout now c =
    let t = after_interval ch (after_backoff ch now c) c in
    if ltb (now + timeout) c.backoff_until
    then some (c, false, now)
    else Option.map
        (λ w. (record c { last_request = t; token_bucket = w.bucket }, w.granted, w.now))
        (acquire ch.bucket_lag 1 timeout t c.token_bucket)

-- The answer to a request that went out at the time `now`; that the answer takes time is left out.
unfoldable pub handle_answer : Chance → ℕ → Text → Answer → Client → Client × Option HashVerdict
handle_answer ch now h unreachable c =
    (record c { network_errors = c.network_errors + 1; offline_until = now + 60000 }, none)
handle_answer ch now h not_found c = (store_cache (unknown_verdict h) c, some (unknown_verdict h))
handle_answer ch now h too_many c =
    let backoff = if c.backoff_seconds == 0 then 15000 else min 120000 (c.backoff_seconds * 2) in
    (
      record c {
        rate_limit_hits = c.rate_limit_hits + 1;
        backoff_seconds = backoff;
        backoff_until = now + max 5000 (backoff + ch.jitter - 2000);
      },
      none,
    )
handle_answer ch now h refused c = (c, none)
handle_answer ch now h (found stats) c =
    let v = parse_response h stats in
    (store_cache v (record c { backoff_seconds = 0; backoff_until = 0 }), some v)

-- What a lookup returns, and when it sent a request, if it did
pub record Looked : Type 0 where
  pub client : Client
  pub verdict : Option HashVerdict
  pub request : Option ℕ

abbrev pub silent : Client → Option HashVerdict → Looked
silent c v = record { client = c; verdict = v; request = none }

-- What is left of a lookup after the wait: the request, or giving up
unfoldable pub send : Chance → Answer → Text → Client × Bool × ℕ → Looked
send ch answer h (c, acquired, now) =
    let (c', v) = handle_answer ch now h answer c in
    if acquired then record { client = c'; verdict = v; request = some now } else silent c none

-- `lookup` of a normalized hash that is not in the cache. It has no result only if the bucket has
-- none.
unfoldable pub query : Chance → Answer → ℕ → Text → Client → Option Looked
query ch answer now h c =
    if is_empty c.api_key
    then some (silent c none)
    else if ltb now c.offline_until
    then some (silent c none)
    else Option.map (send ch answer h)
        (wait_for_rate_limit ch 30000 now (record c { total_queries = c.total_queries + 1 }))

-- `lookup`
unfoldable pub lookup_hash : Python → Chance → Answer → ℕ → Text → Client → Option Looked
unfolding query
lookup_hash py ch answer now sha256 c =
    let h = normalize_hash py sha256 in
    let (c', cached) = get_cached py h c in
    if not (length h == 64)
    then some (silent c none)
    else elim cached [ some v ↦ some (silent c' (some v)) | none ↦ query ch answer now h c' ]
