-- ===== src/Scoring/Dll.antt =====
-- The image-load rules of sentinel/engine/scoring.py: `DllReputationCache`, `DllLoadContext` and
-- `score_dll_load`.
pub mod Laws
use sentinel_antivirus.Prelude.{
  ◌*◌, nat_eq, ℕ, ◌+◌, Bool, true, false, ◌&&◌, ◌||◌, not, Option, none, some, List, [], ◌∷◌, ◌++◌,
  leb, if◌then◌else◌, ◌==◌, is_empty, Text, codes, text_eq,
}
use sentinel_antivirus.Dict.{Dict, lookup, insert, member}
use sentinel_antivirus.Schema.{Value, null, bool, int, float, text}
use sentinel_antivirus.Scoring.Signals.{Signal, new_signal, format_pid_subject}

pub record DllReputationCache : Type 0 where
  pub clean_loads : Dict Text ℕ
  pub clean_threshold : ℕ

-- `_clean_loads.get(key, 0)`
unfoldable pub loads_of : Text → DllReputationCache → ℕ
loads_of key r = elim (lookup key r.clean_loads) [ none ↦ 0 | some n ↦ n ]

unfoldable pub record_clean_load : Text → DllReputationCache → DllReputationCache
record_clean_load key r = record r { clean_loads = insert key (loads_of key r + 1) r.clean_loads }

unfoldable pub is_reputable : Text → DllReputationCache → Bool
is_reputable key r = leb r.clean_threshold (loads_of key r)

pub record DllLoadContext : Type 0 where
  pub dll_hash : Option Text
  pub publisher : Option Text
  pub loader_pid : Value
  pub target_pid : Option ℕ
  pub signed : Option Bool
  pub reflective : Bool
  pub host_normally_injected : Bool
  pub has_cpu_anomaly : Bool
  pub has_network_anomaly : Bool

-- `value == n` for a whole number: Python's numbers are equal across their types.
abbrev pub is_number : Value → ℕ → Bool
is_number null n = false
is_number (bool b) n = (if b then 1 else 0) == n
is_number (int m) n = m == n
is_number (float m) n = m == n * 10000
is_number (text t) n = false

-- `is_cross_process`, by the two pids; a loader that is no number is none of the pids.
unfoldable pub crosses : Value → Option ℕ → Bool
crosses null target = false
crosses loader none = false
crosses loader (some t) = not (is_number loader t)

abbrev pub is_cross_process : DllLoadContext → Bool
is_cross_process ctx = crosses ctx.loader_pid ctx.target_pid

-- `o and p(o)`, where an absent and an empty text are both false
abbrev pub both : Option Text → (Text → Bool) → Bool
both none p = false
both (some t) p = not (is_empty t) && p t

abbrev pub hash_key : Text → Text
hash_key h = codes "hash:" ++ h

abbrev pub publisher_key : Text → Text
publisher_key p = codes "pub:" ++ p

-- `if o: reputation.record_clean_load(key(o))`
unfoldable pub record_if : (Text → Text) → Option Text → DllReputationCache → DllReputationCache
record_if key none r = r
record_if key (some t) r = if is_empty t then r else record_clean_load (key t) r

unfoldable pub dll_subject : Option ℕ → Text
dll_subject none = codes "unknown"
dll_subject (some pid) = format_pid_subject pid none

abbrev pub dll_handling : Text
dll_handling = codes "dll_handling"

abbrev pub signal_if : Bool → Signal → List Signal
signal_if true s = s ∷ []
signal_if false s = []

-- `ctx.signed is False`
abbrev pub is_unsigned : Option Bool → Bool
is_unsigned (some false) = true
is_unsigned _ = false

-- The signals of a cross-process load, in the order in which they are appended.
unfoldable pub dll_signals : ℕ → Text → Bool → Bool → Bool → List Signal
dll_signals now subject reflective abnormal_host unsigned =
    signal_if reflective (new_signal now (codes "dll_reflective") subject dll_handling)
    ++ (new_signal now (codes "dll_cross_process") subject dll_handling
        ∷ (signal_if abnormal_host (new_signal now (codes "dll_abnormal_host") subject dll_handling)
            ++ signal_if unsigned (new_signal now (codes "dll_unsigned") subject dll_handling)))

-- An unsigned image adds a signal only with an abnormal host or another anomaly.
unfoldable pub injection_signals : ℕ → DllLoadContext → List Signal
injection_signals now ctx =
    dll_signals now (dll_subject ctx.target_pid) ctx.reflective (not ctx.host_normally_injected) (
      is_unsigned ctx.signed
      && (not ctx.host_normally_injected || ctx.has_cpu_anomaly || ctx.has_network_anomaly))

-- `score_dll_load`: the signals, and the reputation after the call.
unfoldable pub score_dll_load :
    ℕ
    → DllLoadContext
    → DllReputationCache
    → List Text
    → List Text
    → List Signal × DllReputationCache
score_dll_load now ctx reputation trusted_publishers trusted_hashes =
    if both ctx.publisher (λ p. member p trusted_publishers)
    then ([], record_if publisher_key ctx.publisher reputation)
    else if both ctx.dll_hash (λ h. member h trusted_hashes)
    then ([], record_if hash_key ctx.dll_hash reputation)
    else if both ctx.dll_hash (λ h. is_reputable (hash_key h) reputation)
    then ([], reputation)
    else if both ctx.publisher (λ p. is_reputable (publisher_key p) reputation)
    then ([], reputation)
    else if not (is_cross_process ctx)
    then ([], record_if publisher_key ctx.publisher (record_if hash_key ctx.dll_hash reputation))
    else (injection_signals now ctx, reputation)
