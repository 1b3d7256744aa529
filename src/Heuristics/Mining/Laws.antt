-- ===== src/Heuristics/Mining/Laws.antt =====
-- When sustained CPU use and stratum connections are reported.
use sentinel_antivirus.Prelude.{
  ℕ, ◌+◌, ◌*◌, ◌≤◌, ◌<◌, ◌≡◌, true, [], ◌∷◌, arith, leb, nat_eq, pair_eq, length, keep, all_of,
  text_eq,
}
use sentinel_antivirus.Heuristics.Mining.{CpuWindow, is_within, spans, sustained_above}

-- Every sample of the last `seconds` is above the threshold, and there is one.
pub sustained_above-all :
    (threshold seconds now : ℕ) (w : CpuWindow)
    → sustained_above threshold seconds now w ≡ true
    → (all_of (λ p. leb threshold p.1) (keep (is_within seconds now) w) ≡ true)
      × (0 < length (keep (is_within seconds now) w))
unfolding sustained_above
sustained_above-all threshold seconds now w h =
    elim (keep (is_within seconds now) w)
        as (λ l.
          spans threshold seconds now l ≡ true
          → (all_of (λ p. leb threshold p.1) l ≡ true) × (0 < length l)) [
            | [] ↦ λ h. absurd (ground arith)
            | x ∷ l ↦ λ h. ground arith
          ]
      h

-- One sample can be enough: a process that was measured once, three quarters of the window ago or
-- earlier and still inside of it, counts as sustained. The window need not span `seconds`.
pub one_sample_suffices :
    (threshold seconds now t pct : ℕ)
    → now ≤ t + seconds
    → 4 * t + 3 * seconds ≤ 4 * now
    → threshold ≤ pct
    → sustained_above threshold seconds now ((t, pct) ∷ []) ≡ true
unfolding sustained_above
one_sample_suffices threshold seconds now t pct inside early high = ground arith
