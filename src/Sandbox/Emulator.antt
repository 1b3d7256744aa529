-- ===== src/Sandbox/Emulator.antt =====
-- sentinel/sandbox/emulator.py: the hashes of tracked calls, what a simulated call leaves, and the
-- rating of a run.
pub mod Risk
use sentinel_antivirus.Prelude.{
  nat_eq, ℕ, ◌+◌, ◌*◌, ◌/◌, ◌%◌, ◌^◌, min, Bool, true, false, ◌||◌, not, List, [], ◌∷◌, ◌++◌, ltb,
  leb, if◌then◌else◌, length, any_of, is_empty, take, join, Text, codes, text_eq,
}
use sentinel_antivirus.Dict.{Dict, insert, member}

-- One character of `ror13`: the hash turned right by 13 bits, whose two parts share no bit, and the
-- character
abbrev pub ror13_step : ℕ → ℕ → ℕ
ror13_step hash c = ((hash / 2 ^ 13 + hash * 2 ^ 19 % 2 ^ 32) % 2 ^ 32 + c) % 2 ^ 32

unfoldable pub ror13_from : ℕ → Text → ℕ
ror13_from hash [] = hash
ror13_from hash (c ∷ name) = ror13_from (ror13_step hash c) name

-- `ror13`
unfoldable pub ror13 : Text → ℕ
unfolding ror13_from
ror13 name = ror13_from 0 name

-- `TARGET_APIS`
abbrev pub target_apis : List Text
target_apis =
    codes "LoadLibraryA"
    ∷ codes "LoadLibraryW"
    ∷ codes "LoadLibraryExA"
    ∷ codes "LoadLibraryExW"
    ∷ codes "GetProcAddress"
    ∷ codes "VirtualAlloc"
    ∷ codes "VirtualAllocEx"
    ∷ codes "VirtualProtect"
    ∷ codes "VirtualProtectEx"
    ∷ codes "WriteProcessMemory"
    ∷ codes "CreateProcessA"
    ∷ codes "CreateProcessW"
    ∷ codes "CreateRemoteThread"
    ∷ codes "QueueUserAPC"
    ∷ codes "WinExec"
    ∷ codes "ExitProcess"
    ∷ codes "TerminateProcess"
    ∷ codes "IsDebuggerPresent"
    ∷ codes "CheckRemoteDebuggerPresent"
    ∷ codes "Sleep"
    ∷ codes "SleepEx"
    ∷ codes "GetTickCount"
    ∷ codes "QueryPerformanceCounter"
    ∷ codes "URLDownloadToFileA"
    ∷ codes "InternetOpenA"
    ∷ codes "InternetConnectA"
    ∷ codes "HttpOpenRequestA"
    ∷ codes "HttpSendRequestA"
    ∷ codes "NtUnmapViewOfSection"
    ∷ []

unfoldable pub hashes_of : List Text → Dict ℕ Text → Dict ℕ Text
unfolding ror13
hashes_of [] d = d
hashes_of (api ∷ apis) d = hashes_of apis (insert (ror13 api) api d)

-- `KNOWN_API_ROR13_HASHES`
unfoldable pub known_api_ror13_hashes : Dict ℕ Text
unfolding hashes_of
known_api_ror13_hashes = hashes_of target_apis []

pub data Category : Type 0 where
  general anti_debug timing memory injection : Category

-- `ApiCallRecord`; its arguments are never set.
pub record ApiCallRecord : Type 0 where
  pub api_name : Text
  pub return_value : ℕ
  pub category : Category

-- `EmulationResult`, as far as the rating uses it and gives it. A score is in points.
pub record EmulationResult : Type 0 where
  pub api_calls : List ApiCallRecord
  pub evasion_techniques : List Text
  pub rwx_allocations : ℕ
  pub unpacked_payload_sizes : List ℕ
  pub unpacked_yara_matches : List Text
  pub threat_reasons : List Text
  pub is_suspicious : Bool
  pub is_malicious : Bool
  pub risk_score : ℕ

-- The category of a call, in the order of the tests
unfoldable pub category_of : Text → Category
category_of api =
    if member api (codes "IsDebuggerPresent" ∷ codes "CheckRemoteDebuggerPresent" ∷ [])
    then anti_debug
    else if member api (codes "Sleep" ∷ codes "SleepEx" ∷ [])
    then timing
    else if member api (codes "VirtualAlloc" ∷ codes "VirtualAllocEx" ∷ [])
    then memory
    else if member api (
        codes "WriteProcessMemory" ∷ codes "CreateRemoteThread" ∷ codes "NtUnmapViewOfSection" ∷ [])
    then injection
    else general

-- What a call of a category leaves in the result, and in `eax`
unfoldable pub simulate : Category → Text → ℕ → EmulationResult → EmulationResult × ℕ
simulate general api eax r = (r, eax)
simulate anti_debug api eax r =
    (record r { evasion_techniques = r.evasion_techniques ++ (codes "AntiDebug:" ++ api) ∷ [] }, 0)
simulate timing api eax r =
    (record r { evasion_techniques = r.evasion_techniques ++ codes "TimingEvasion:Sleep" ∷ [] }, 0)
simulate memory api eax r = (
  record r {
    rwx_allocations = r.rwx_allocations + 1;
    threat_reasons = r.threat_reasons ++ codes "Allocated executable memory (VirtualAlloc)" ∷ [];
  },
  536870912,
)
simulate injection api eax r = (
  record r {
    threat_reasons = r.threat_reasons ++ (codes "Process Injection primitive called: " ++ api) ∷ [];
  },
  1,
)

-- `_handle_api_call`, with `eax` before and after
unfoldable pub handle_api_call : Text → ℕ → EmulationResult → EmulationResult × ℕ
unfolding simulate
handle_api_call api eax r =
    let (r', eax') = simulate (category_of api) api eax r in
    let call : ApiCallRecord = record {
      api_name = api;
      return_value = eax';
      category = category_of api;
    } in
    (record r' { api_calls = r'.api_calls ++ call ∷ [] }, eax')

abbrev pub is_injection : Category → Bool
is_injection injection = true
is_injection _ = false

-- The sum of `_evaluate_risk`, before it is capped
unfoldable pub evidence : EmulationResult → ℕ
evidence r =
    (if is_empty r.unpacked_yara_matches then 0 else 85)
    + (if any_of (λ c. is_injection c.category) r.api_calls then 45 else 0)
    + (if is_empty r.unpacked_payload_sizes then 0 else 35)
    + (if ltb 0 r.rwx_allocations then 25 else 0)
    + min 40 (length r.evasion_techniques * 20)

-- The reasons that `_evaluate_risk` adds
unfoldable pub reasons_of : EmulationResult → List Text
reasons_of r =
    (if is_empty r.unpacked_yara_matches
      then []
      else (codes "Unpacked memory matched YARA signature(s): "
          ++ join (codes ", ") r.unpacked_yara_matches)
        ∷ [])
    ++ ((if is_empty r.unpacked_payload_sizes
          then []
          else codes "Self-decrypting unpacking routine detected (wrote payload to memory)" ∷ [])
        ++ (if is_empty r.evasion_techniques
            then []
            else (codes "Anti-analysis evasion detected: "
                ++ join (codes ", ") (take 3 r.evasion_techniques))
              ∷ []))

-- `_evaluate_risk`
unfoldable pub evaluate_risk : EmulationResult → EmulationResult
unfolding evidence
evaluate_risk r =
    let score = min 100 (evidence r) in
    record r {
      threat_reasons = r.threat_reasons ++ reasons_of r;
      risk_score = score;
      is_suspicious =
          ((leb 20 score || ltb 0 (length r.evasion_techniques)) || ltb 0 r.rwx_allocations)
          || ltb 0 (length r.unpacked_payload_sizes);
      is_malicious = leb 75 score || not (is_empty r.unpacked_yara_matches);
    }
