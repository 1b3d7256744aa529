-- ===== src/MemoryScanner/Ends.antt =====
-- The scan of a process ends.
use sentinel_antivirus.Prelude.{
  ℕ, zero, suc, ◌+◌, ◌≤◌, ◌<◌, ◌≡◌, refl, inl, inr, Bool, false, Option, some, List, [], ◌++◌,
  arith, leb, nat_eq, pair_eq, Bool-cases, Option-cases, Text, text_eq,
}
use sentinel_antivirus.MemoryScanner.Region.{MemoryRegion, MemoryThreat}
use sentinel_antivirus.MemoryScanner.Managed.{
  Platform, windows, linux, macos, other, System, Cache, is_managed_process,
}
use sentinel_antivirus.MemoryScanner.Scan.{scan_windows, scan_on, process_name_of, scan_process}
use sentinel_antivirus.MemoryScanner.Loops.{scan_region, is_last, scan_regions}

-- As VirtualQueryEx is documented: the region that it gives for an address reaches beyond it.
abbrev pub Advances : System → ℕ → Type 0
Advances sys pid =
    (a : ℕ) (r : MemoryRegion) → sys.virtual_query pid a ≡ some r → a < r.base_address + r.size

not_last :
    (budget : ℕ) (r : MemoryRegion) (scanned : ℕ)
    → is_last budget r scanned ≡ false
    → r.base_address + r.size < 0x7FFFFFFF0000
unfolding is_last
not_last budget r scanned h = ground arith

scan_regions-total :
    (sys : System) (fuel pid : ℕ) (name : Text) (is_jit : Bool) (budget address total : ℕ)
    → Advances sys pid
    → address < 0x7FFFFFFF0000
    → 0x7FFFFFFF0000 ≤ address + fuel
    → (ts : List MemoryThreat) × (scan_regions sys fuel pid name is_jit budget address total
        ≡ some ts)
unfolding scan_regions
scan_regions-total sys zero pid name is_jit budget address total adv low enough =
    absurd (omega arith)
scan_regions-total sys (suc fuel) pid name is_jit budget address total adv low enough =
    elim (Option-cases (sys.virtual_query pid address)) [
      | inl over ↦ ([], rw (scan_regions, over) refl)
      | inr (r, here) ↦
          let found = (scan_region sys pid name is_jit r total).0 in
          let scanned = (scan_region sys pid name is_jit r total).1 in
          elim (Bool-cases (is_last budget r scanned)) [
            | inl last ↦ (found, rw (scan_regions, here, last) refl)
            | inr more ↦
                let beyond = adv address r here in
                let (later, e) =
                  scan_regions-total sys fuel pid name is_jit budget (r.base_address + r.size)
                    scanned adv (not_last budget r scanned more) (omega arith) in
                (found ++ later, rw (scan_regions, here, more, e) refl)
          ]
    ]

scan_on-total :
    (p : Platform) (sys : System) (fuel pid : ℕ) (name : Text) (budget : ℕ) (cache : Cache)
    → Advances sys pid
    → 0x7FFFFFFF0000 ≤ fuel
    → (ts : List MemoryThreat) × ((scan_on p sys fuel pid name budget cache).0 ≡ some ts)
unfolding scan_on scan_windows
scan_on-total windows sys fuel pid name budget cache adv enough =
    elim (Bool-cases (sys.open_process pid)) [
      | inr shut ↦ ([], rw (scan_windows, shut) refl)
      | inl open_ ↦
          let (ts, e) =
            scan_regions-total sys fuel pid name (is_managed_process sys pid name cache).0 budget 0
              0 adv (omega arith) (omega arith) in
          (ts, rw (scan_windows, open_) e)
    ]
scan_on-total linux sys fuel pid name budget cache adv enough = (_, refl)
scan_on-total macos sys fuel pid name budget cache adv enough = (_, refl)
scan_on-total other sys fuel pid name budget cache adv enough = (_, refl)

-- A scan of a process ends on each platform, with as much fuel as there are addresses.
pub scan_process-total :
    (sys : System) (fuel pid : ℕ) (name : Option Text) (budget : ℕ) (cache : Cache)
    → Advances sys pid
    → 0x7FFFFFFF0000 ≤ fuel
    → (ts : List MemoryThreat) × ((scan_process sys fuel pid name budget cache).0 ≡ some ts)
unfolding scan_process
scan_process-total sys fuel pid name budget cache adv enough = elim (Bool-cases (leb pid 4)) [
  | inl low ↦ ([], rw (scan_process, low) refl)
  | inr high ↦
      let (ts, e) =
        scan_on-total sys.platform sys fuel pid (process_name_of pid name) budget cache adv
          enough in
      (ts, rw (scan_process, high) e)
]
