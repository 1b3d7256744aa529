-- ===== src/Examples/Watchdog.antt =====
-- A service that dies, and stays dead.
use sentinel_antivirus.Prelude.{
  ℕ, ◌<◌, ◌≡◌, refl, Bool, true, false, some, List, [], ◌∷◌, arith, nat_eq, pair_eq, length,
  text_eq,
}
use sentinel_antivirus.Watchdog.{Poll, Watchdog, start}
use sentinel_antivirus.Watchdog.Restarts.{restarts, start-restarts}

abbrev watchdog : Watchdog
watchdog = record { last_restart = 0 }

abbrev dead : ℕ → Bool → Poll
dead now works = record {
  now = now;
  pid = some 7;
  pid_alive = false;
  service_running = false;
  restart_works = works;
}

abbrev polls : List Poll
polls = dead 10000 true ∷ dead 20000 true ∷ dead 30000 true ∷ []

polls-restarts : restarts (start polls watchdog).1 ≡ 30000 ∷ []
unfolding start sentinel_antivirus.Watchdog.poll sentinel_antivirus.Watchdog.check_alive
    sentinel_antivirus.Watchdog.handle_death
polls-restarts = refl

start-restarts_example : 0 < length (restarts (start polls watchdog).1)
unfolding sentinel_antivirus.Watchdog.check_alive
start-restarts_example =
    start-restarts 10000 0 polls watchdog (omega arith)
      (omega arith, (omega arith, (omega arith, tt))) (refl, (refl, (refl, tt)))
      (refl, (refl, (refl, tt))) (omega arith) (omega arith)
