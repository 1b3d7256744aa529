-- ===== src/Examples/VirusTotal.antt =====
-- A bucket that never runs over its rate, and a hash that is asked for.
use sentinel_antivirus.Prelude.{
  ℕ, ◌+◌, ◌-◌, ◌*◌, ◌≤◌, ◌≡◌, refl, false, none, some, [], ◌∷◌, arith, nat_eq, pair_eq, length,
  Text, codes, text_beq, text_eq, starts_with, without,
}
use sentinel_antivirus.Dict.{lookup, insert}
use sentinel_antivirus.VirusTotal.Bucket.{acquire, acquire_loop, refill, rounds}
use sentinel_antivirus.VirusTotal.Bucket.Rate.{run, no_calls, run-granted}
use sentinel_antivirus.VirusTotal.Client.{
  Client, HashVerdict, malicious, Answer, found, Chance, Looked, normalize_hash, get_cached,
  wait_for_rate_limit, query, send, handle_answer, parse_response, store_cache, lookup_hash,
}
use sentinel_antivirus.VirusTotal.Client.Lookup.{IsDue}
use sentinel_antivirus.VirusTotal.Client.Once.{lookup_hash-IsDue}
use sentinel_antivirus.Examples.{plain_python}

run-granted_example :
    (run 30000 ((0, λ n. 0) ∷ (100, λ n. 0) ∷ []) (no_calls 1 15000 5)).granted * 15000 + 5
    ≤ 1 * 15000 + (run 30000 ((0, λ n. 0) ∷ (100, λ n. 0) ∷ []) (no_calls 1 15000 5)).now
run-granted_example = run-granted 1 15000 5 30000 ((0, λ n. 0) ∷ (100, λ n. 0) ∷ []) (omega arith)

abbrev pub sha : Text
sha = codes "aaaaaaaaaaaaaaaabbbbbbbbbbbbbbbbccccccccccccccccdddddddddddddddd"

abbrev pub client : Client
client = record {
  api_key = codes "key";
  min_interval = 0;
  cache = [];
  last_request = 0;
  token_bucket = record { capacity = 4; interval = 15000; tokens = 60000; last_update = 0 };
  backoff_seconds = 0;
  backoff_until = 0;
  offline_until = 0;
  total_queries = 0;
  cache_hits = 0;
  rate_limit_hits = 0;
  network_errors = 0;
}

abbrev pub chance : Chance
chance = record { backoff_lag = 0; interval_lag = 0; bucket_lag = λ n. 0; jitter = 0 }

abbrev answer : Answer
answer = found ((codes "malicious", 3) ∷ [])

abbrev verdict : HashVerdict
verdict = record {
  sha256 = sha;
  verdict = malicious;
  positives = some 3;
  total = some 3;
  from_cache = false;
}

abbrev looked : Looked
looked = record {
  client = record client {
    cache = (sha, verdict) ∷ [];
    last_request = 5;
    token_bucket = record { capacity = 4; interval = 15000; tokens = 45000; last_update = 5 };
    total_queries = 1;
  };
  verdict = some verdict;
  request = some 5;
}

first_lookup : lookup_hash plain_python chance answer 5 sha client ≡ some looked
unfolding lookup_hash normalize_hash sentinel_antivirus.Prelude.without get_cached query
    wait_for_rate_limit send handle_answer parse_response store_cache acquire acquire_loop refill
    rounds lookup insert sentinel_antivirus.Prelude.starts_with sentinel_antivirus.Prelude.text_beq
first_lookup = refl

lookup_hash-IsDue_example :
    (length (normalize_hash plain_python sha) ≡ 64)
    × (lookup (normalize_hash plain_python (normalize_hash plain_python sha)) client.cache ≡ none)
    × IsDue 5 client 5
lookup_hash-IsDue_example =
    lookup_hash-IsDue plain_python chance answer 5 sha client first_lookup refl
