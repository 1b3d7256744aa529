-- ===== src/Scoring/Dll/Laws.antt =====
-- What one image load can contribute, and how reputation grows.
use sentinel_antivirus.Prelude.{
  ℕ, ◌+◌, ◌≤◌, ◌≡◌, refl, ◌⊎◌, inl, inr, Bool, true, false, Option, none, some, List, [], arith,
  if◌then◌else◌, ◌==◌, nat_eq, pair_eq, All, Text, text_beq, text_beq_iff, text_eq, starts_with,
}
use sentinel_antivirus.Dict.{lookup, lookup-insert}
use sentinel_antivirus.Scoring.Signals.{Signal, effective_weight, default_weight, total_weight}
use sentinel_antivirus.Scoring.Scorer.{corroborates}
use sentinel_antivirus.Scoring.Dll.{
  dll_signals, DllReputationCache, DllLoadContext, loads_of, record_clean_load, hash_key,
  publisher_key, record_if, injection_signals, score_dll_load,
}

program : Unit {0}
unfolding dll_signals effective_weight default_weight lookup text_beq starts_with
program = tt

-- What the signals of one load may be: none that counts by itself, and 50 in all.
abbrev pub IsWeak : List Signal → Type 0
IsWeak ss = All (λ g. corroborates g ≡ false) ss × (total_weight ss ≤ 50)

dll_signals-IsWeak :
    (now : ℕ) (subject : Text) (abnormal unsigned : Bool)
    → IsWeak (dll_signals now subject false abnormal unsigned)
unfolding program
dll_signals-IsWeak now subject true true = ((refl, (refl, (refl, tt))), omega arith)
dll_signals-IsWeak now subject true false = ((refl, (refl, tt)), omega arith)
dll_signals-IsWeak now subject false true = ((refl, (refl, tt)), omega arith)
dll_signals-IsWeak now subject false false = ((refl, tt), omega arith)

silent_or_injection :
    (now : ℕ) (ctx : DllLoadContext) (r : DllReputationCache) (ps hs : List Text)
    → ((score_dll_load now ctx r ps hs).0 ≡ [])
      ⊎ ((score_dll_load now ctx r ps hs).0 ≡ injection_signals now ctx)
unfolding score_dll_load
silent_or_injection now ctx r ps hs = ground arith

-- A load that is not reflective contributes only signals that cannot trigger a response by
-- themselves, and together they weigh at most 50, below the default threshold of 80.
pub score_dll_load-IsWeak :
    (now : ℕ) (ctx : DllLoadContext) (r : DllReputationCache) (ps hs : List Text)
    → ctx.reflective ≡ false
    → IsWeak (score_dll_load now ctx r ps hs).0
unfolding injection_signals
score_dll_load-IsWeak now ctx r ps hs h = elim (silent_or_injection now ctx r ps hs) [
  | inl silent ↦ rw silent (tt, omega arith)
  | inr injected ↦ rw injected (rw h (dll_signals-IsWeak now _ _ _))
]

loads_of-record :
    (key k : Text) (r : DllReputationCache)
    → loads_of k (record_clean_load key r) ≡ (if key == k then loads_of key r + 1 else loads_of k r)
unfolding record_clean_load loads_of
loads_of-record key k r = ground (arith, lookup-insert key k (loads_of key r + 1) r.clean_loads)

loads_of-record_if-le :
    (key : Text → Text) (o : Option Text) (k : Text) (r : DllReputationCache)
    → loads_of k r ≤ loads_of k (record_if key o r)
unfolding record_if
loads_of-record_if-le key none k r = omega arith
loads_of-record_if-le key (some t) k r =
    ground (arith, loads_of-record (key t) k r, text_beq_iff (key t) k)

-- Scoring a load never takes reputation away.
pub score_dll_load-loads_of :
    (now : ℕ) (ctx : DllLoadContext) (r : DllReputationCache) (ps hs : List Text) (k : Text)
    → loads_of k r ≤ loads_of k (score_dll_load now ctx r ps hs).1
unfolding score_dll_load
score_dll_load-loads_of now ctx r ps hs k = ground (
  arith,
  loads_of-record_if-le publisher_key ctx.publisher k r,
  loads_of-record_if-le hash_key ctx.dll_hash k r,
  loads_of-record_if-le publisher_key ctx.publisher k (record_if hash_key ctx.dll_hash r),
)
