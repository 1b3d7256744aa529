-- ===== src/Sandbox/Emulator/Risk.antt =====
-- How the rating of a run follows its evidence.
use sentinel_antivirus.Prelude.{
  ℕ, ◌≤◌, ◌≡◌, refl, inl, inr, Bool, true, false, ◌||◌, List, [], ◌∷◌, ◌++◌, arith, ltb,
  if◌then◌else◌, nat_eq, pair_eq, Bool-cases, length, length-append, any_of, is_empty, Text, codes,
  text_eq,
}
use sentinel_antivirus.Sandbox.Emulator.{
  ApiCallRecord, EmulationResult, Category, general, anti_debug, timing, memory, injection,
  category_of, simulate, handle_api_call, is_injection, evidence, evaluate_risk,
}

any_of-append :
    {A : Type 0} (p : A → Bool) (xs ys : List A)
    → any_of p (xs ++ ys) ≡ (any_of p xs || any_of p ys)
any_of-append p [] ys = refl
any_of-append p (x ∷ xs) ys = ground (arith, any_of-append p xs ys)

abbrev has_injection : EmulationResult → Bool
has_injection r = any_of (λ c. is_injection c.category) r.api_calls

-- A result that shows at least as much as another
abbrev Shows : EmulationResult → EmulationResult → Type 0
Shows r r' =
    (r'.unpacked_yara_matches ≡ r.unpacked_yara_matches)
    × (r'.unpacked_payload_sizes ≡ r.unpacked_payload_sizes)
    × (has_injection r ≡ true → has_injection r' ≡ true)
    × (r.rwx_allocations ≤ r'.rwx_allocations)
    × (length r.evasion_techniques ≤ length r'.evasion_techniques)

simulate-Shows :
    (c : Category) (api : Text) (eax : ℕ) (r : EmulationResult) → Shows r (simulate c api eax r).0
unfolding simulate
simulate-Shows general api eax r = (refl, refl, (λ h. h), omega arith, omega arith)
simulate-Shows anti_debug api eax r = (
  refl,
  refl,
  (λ h. h),
  omega arith,
  omega (arith, length-append r.evasion_techniques ((codes "AntiDebug:" ++ api) ∷ [])),
)
simulate-Shows timing api eax r = (
  refl,
  refl,
  (λ h. h),
  omega arith,
  omega (arith, length-append r.evasion_techniques (codes "TimingEvasion:Sleep" ∷ [])),
)
simulate-Shows memory api eax r = (refl, refl, (λ h. h), omega arith, omega arith)
simulate-Shows injection api eax r = (refl, refl, (λ h. h), omega arith, omega arith)

handle_api_call-Shows :
    (api : Text) (eax : ℕ) (r : EmulationResult) → Shows r (handle_api_call api eax r).0
unfolding handle_api_call
handle_api_call-Shows api eax r =
    let s = simulate-Shows (category_of api) api eax r in
    let r' = (simulate (category_of api) api eax r).0 in
    let call : ApiCallRecord = record {
      api_name = api;
      return_value = (simulate (category_of api) api eax r).1;
      category = category_of api;
    } in
    (
      s.0,
      s.1,
      (λ h.
          ground
            (arith, s.2 h, any_of-append (λ c. is_injection c.category) r'.api_calls (call ∷ []))),
      s.3,
      s.4,
    )

step : (b c : Bool) (n : ℕ) → (b ≡ true → c ≡ true) → (if b then n else 0) ≤ (if c then n else 0)
step b c n h = ground (arith, h)

evidence-Shows : (r r' : EmulationResult) → Shows r r' → evidence r ≤ evidence r'
unfolding evidence
evidence-Shows r r' (yara, payload, inject, rwx, evasions) =
    let a = step (has_injection r) (has_injection r') 45 inject in
    let b = step (ltb 0 r.rwx_allocations) (ltb 0 r'.rwx_allocations) 25 (λ h. ground arith) in
    rw (yara, payload) (omega (arith, a, b, evasions))

evidence-yara : (r : EmulationResult) → is_empty r.unpacked_yara_matches ≡ false → 85 ≤ evidence r
unfolding evidence
evidence-yara r h = rw h (omega arith)

malicious_suspicious :
    (r : EmulationResult)
    → (evaluate_risk r).is_malicious ≡ true
    → (evaluate_risk r).is_suspicious ≡ true
unfolding evaluate_risk
malicious_suspicious r h = elim (Bool-cases (is_empty r.unpacked_yara_matches)) [
  | inl no_match ↦ ground (arith, h, no_match)
  | inr matched ↦ ground (arith, evidence-yara r matched)
]

-- A simulated call never lowers the rating of a run, nor takes back that it is suspicious or
-- malicious; a rating is at most 100, and a malicious run is suspicious.
pub evaluate_risk-handle_api_call :
    (api : Text) (eax : ℕ) (r : EmulationResult)
    → let before = evaluate_risk r in
      let after = evaluate_risk (handle_api_call api eax r).0 in
      (before.risk_score ≤ after.risk_score)
      × (before.is_suspicious ≡ true → after.is_suspicious ≡ true)
      × (before.is_malicious ≡ true → after.is_malicious ≡ true)
      × (after.risk_score ≤ 100)
      × (after.is_malicious ≡ true → after.is_suspicious ≡ true)
unfolding evaluate_risk
evaluate_risk-handle_api_call api eax r =
    let s = handle_api_call-Shows api eax r in
    let r' = (handle_api_call api eax r).0 in
    let e = evidence-Shows r r' s in
    (
      omega (arith, e),
      (λ h. ground (arith, e, s.1, s.3, s.4)),
      (λ h. ground (arith, e, s.0)),
      omega arith,
      λ h. malicious_suspicious r' h,
    )
