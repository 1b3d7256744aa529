-- ===== src/Watchdog/Restarts.antt =====
-- How often and how soon the watchdog restarts the service.
use sentinel_antivirus.Prelude.{
  ℕ, suc, ◌+◌, ◌*◌, ◌≤◌, ◌<◌, ◌≡◌, refl, inl, inr, true, false, List, [], ◌∷◌, arith, ltb, nat_eq,
  pair_eq, Bool-cases, length, All, text_eq,
}
use sentinel_antivirus.Watchdog.{
  restart_cooldown, Poll, Watchdog, check_alive, Outcome, quiet, failed, restarted, handle_death,
  poll, start,
}

-- The times of the restarts that worked
abbrev pub restarts : List Outcome → List ℕ
restarts [] = []
restarts (restarted t ∷ os) = t ∷ restarts os
restarts (_ ∷ os) = restarts os

-- How many restarts were tried
abbrev pub attempts : List Outcome → ℕ
attempts [] = 0
attempts (quiet ∷ os) = attempts os
attempts (_ ∷ os) = suc (attempts os)

-- Each time is a cooldown or more after the one before it.
abbrev pub IsSpaced : ℕ → List ℕ → Type 0
IsSpaced last [] = Unit
IsSpaced last (t ∷ ts) = (last + restart_cooldown ≤ t) × IsSpaced t ts

-- A poll that finds the service dead
abbrev pub IsDead : Poll → Type 0
IsDead p = check_alive p ≡ false

-- Each poll is `interval` or more after the one before it.
abbrev pub AtIntervals : ℕ → ℕ → List Poll → Type 0
AtIntervals interval t [] = Unit
AtIntervals interval t (p ∷ ps) = (t + interval ≤ p.now) × AtIntervals interval p.now ps

data PollCases (p : Poll) (w : Watchdog) : Type 0 where
  waits :
      poll p w ≡ (w, quiet)
      → (check_alive p ≡ false → p.now < w.last_restart + restart_cooldown)
      → PollCases p w
  fails : poll p w ≡ (w, failed p.now) → p.restart_works ≡ false → PollCases p w
  works :
      poll p w ≡ (record w { last_restart = p.now }, restarted p.now)
      → w.last_restart + restart_cooldown ≤ p.now
      → p.restart_works ≡ true
      → PollCases p w

poll-cases : (p : Poll) (w : Watchdog) → PollCases p w
unfolding poll handle_death
poll-cases p w = elim (Bool-cases (check_alive p)) [
  | inl alive ↦ waits (rw (poll, alive) refl) (λ dead. absurd (ground arith))
  | inr dead ↦ elim (Bool-cases (ltb p.now (w.last_restart + restart_cooldown))) [
    | inl soon ↦ waits (rw (poll, dead, handle_death, soon) refl) (λ _. ground arith)
    | inr late ↦ elim (Bool-cases p.restart_works) [
      | inl up ↦ works (ground arith) (ground arith) up
      | inr down ↦ fails (ground arith) down
    ]
  ]
]

-- Restarts that worked are a cooldown apart, whatever the polls find and whatever the clock does.
pub start-IsSpaced :
    (ps : List Poll) (w : Watchdog) → IsSpaced w.last_restart (restarts (start ps w).1)
unfolding start
start-IsSpaced [] w = tt
start-IsSpaced (p ∷ ps) w = elim (poll-cases p w) [
  | waits e _ ↦ rw e (start-IsSpaced ps w)
  | fails e _ ↦ rw e (start-IsSpaced ps w)
  | works e h _ ↦ rw e (h, start-IsSpaced ps (record w { last_restart = p.now }))
]

start-restarts_by :
    (interval t : ℕ) (ps : List Poll) (w : Watchdog)
    → w.last_restart + restart_cooldown ≤ t + interval * length ps
    → AtIntervals interval t ps
    → All IsDead ps
    → All (λ p. p.restart_works ≡ true) ps
    → 0 < length ps
    → 0 < length (restarts (start ps w).1)
unfolding start
start-restarts_by interval t [] w l a d r n = n
start-restarts_by interval t (p ∷ []) w l a d r n = elim (poll-cases p w) [
  | works e _ _ ↦ rw e (omega arith)
  | fails e broken ↦ absurd (ground (arith, r.0))
  | waits e soon ↦ absurd (omega (arith, soon d.0, a.0))
]
start-restarts_by interval t (p ∷ q ∷ ps) w l a d r n = elim (poll-cases p w) [
  | works e _ _ ↦ rw e (omega arith)
  | fails e broken ↦ absurd (ground (arith, r.0))
  | waits e soon ↦
      rw e
        (start-restarts_by interval p.now (q ∷ ps) w (omega (arith, a.0)) a.1 d.1 r.1 (omega arith))
]

-- A service that stays dead is restarted: polls at intervals that together make up the cooldown,
-- and that find the service dead and its restart working, restart it.
pub start-restarts :
    (interval t : ℕ) (ps : List Poll) (w : Watchdog)
    → w.last_restart ≤ t
    → AtIntervals interval t ps
    → All IsDead ps
    → All (λ p. p.restart_works ≡ true) ps
    → 0 < length ps
    → restart_cooldown ≤ interval * length ps
    → 0 < length (restarts (start ps w).1)
start-restarts interval t ps w l a d r n c = start-restarts_by interval t ps w (omega arith) a d r n

-- A restart that fails is tried again at the next poll: the cooldown does not keep attempts apart.
pub start-attempts :
    (ps : List Poll) (w : Watchdog)
    → All IsDead ps
    → All (λ p. p.restart_works ≡ false) ps
    → All (λ p. w.last_restart + restart_cooldown ≤ p.now) ps
    → attempts (start ps w).1 ≡ length ps
unfolding start
start-attempts [] w d r l = refl
start-attempts (p ∷ ps) w d r l = elim (poll-cases p w) [
  | waits e h ↦ absurd (omega (arith, h d.0))
  | fails e _ ↦ rw e (omega (arith, start-attempts ps w d.1 r.1 l.1))
  | works e _ r' ↦ absurd (ground (arith, r.0))
]
