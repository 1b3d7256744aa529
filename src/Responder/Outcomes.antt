-- ===== src/Responder/Outcomes.antt =====
-- What `quarantine_process` leaves behind.
use sentinel_antivirus.Prelude.{
  ℕ, ◌-◌, ◌≡◌, refl, sym, ap, ◌∙◌, ◌⊎◌, inl, inr, true, false, ◌||◌, not, Option, none, some, List,
  arith, if◌then◌else◌, nat_eq, pair_eq, Option-cases, is_some, Text, text_beq, text_eq,
}
use mathlib.Core.Path.{subst}
use sentinel_antivirus.Result.{Error, Result, ok, err, Result-cases, ok-injective}
use sentinel_antivirus.Schema.{post_init}
use sentinel_antivirus.Scoring.Scorer.{Scorer}
use sentinel_antivirus.Quarantine.{QuarantineRecord, Os, Store}
use sentinel_antivirus.Kernel.Bridge.{Driver, KernelBridge}
use sentinel_antivirus.Responder.{
  publish, EventBus, Processes, ProcessError, suspend_process, Moment, suspend_failed, file_kept,
  Outcome, Machine, or_else, if_any_path, audit_event, contain, audit, is_kept, respond,
  quarantine_process,
}

-- The event of a response is one that the schema accepts.
audit_event-IsValid :
    (m : Moment) (pid : ℕ) (reason : Text) (path : Option Text) (rec : Option QuarantineRecord)
    → post_init (audit_event m pid reason path rec) ≡ ok (audit_event m pid reason path rec)
unfolding post_init audit_event sentinel_antivirus.Dict.member sentinel_antivirus.Prelude.text_beq
audit_event-IsValid m pid reason path rec = refl

module _ {Procs Port : Type 0} (nt : Processes Procs) (os : Os (KernelBridge Port))
    (driver : Driver Port) (m : Moment) (pid : ℕ) (reason : Text) (signals : List Text)
    (scorer : Scorer) (image_path : Option Text) (w : Machine Procs Port) where
  -- The suspension, the processes after it, and the image that is found then
  abbrev pub suspension : Option ProcessError × Procs
  suspension = suspend_process nt (some pid) w.procs

  abbrev pub image : Option Text
  image = or_else image_path (if_any_path (nt.exe pid suspension.1))

  abbrev pub suspended : Machine Procs Port
  suspended = record w { procs = suspension.1 }

  abbrev pub response : Result Outcome × Machine Procs Port
  response = quarantine_process nt os driver m pid reason signals scorer image_path w

  abbrev pub not_suspended : ProcessError → Outcome
  not_suspended e = record {
    success = false;
    error = some (suspend_failed e);
    suspension = some e;
    quarantine = none;
    event_id = none;
  }

  response-suspended :
      suspension.0 ≡ none
      → response ≡ respond nt os driver m pid reason signals scorer image suspended
  unfolding quarantine_process
  response-suspended e = rw (quarantine_process, e) refl

  response-failed :
      {x : ProcessError} → suspension.0 ≡ some x → response ≡ (ok (not_suspended x), suspended)
  unfolding quarantine_process
  response-failed e = rw (quarantine_process, e) refl

  abbrev pub contained : Result (Option QuarantineRecord) × Store (KernelBridge Port)
  contained = contain os driver m pid reason signals scorer image w.store

  abbrev pub outcome : Option QuarantineRecord → Outcome
  outcome rec = record {
    success = not (is_kept rec image);
    error = (if is_kept rec image then some file_kept else none);
    suspension = none;
    quarantine = rec;
    event_id = (audit (audit_event m pid reason image rec) w.bus).1;
  }

  pub response-contained :
      {rec : Option QuarantineRecord}
      → suspension.0 ≡ none
      → contained.0 ≡ ok rec
      → response ≡ (
        ok (outcome rec),
        record suspended {
          store = contained.1;
          bus = (audit (audit_event m pid reason image rec) w.bus).0;
        },
      )
  unfolding respond
  response-contained e c = response-suspended e ∙ rw (respond, c) refl

  response-raised :
      {x : Error}
      → suspension.0 ≡ none
      → contained.0 ≡ err x
      → response ≡ (err x, record suspended { store = contained.1 })
  unfolding respond
  response-raised e c = response-suspended e ∙ rw (respond, c) refl

  -- A response that was published
  abbrev pub Published : EventBus → Outcome → Option EventBus → Type 0
  Published b o bus =
      let e = audit_event m pid reason image o.quarantine in
      (o.success ≡ (is_some o.quarantine || not (is_some image)))
      × (bus ≡ some (publish e b).0)
      × (o.event_id ≡ some (publish e b).1)
      × (post_init e ≡ ok e)

  outcome-Published :
      (rec : Option QuarantineRecord) {b : EventBus}
      → w.bus ≡ some b
      → Published b (outcome rec) (audit (audit_event m pid reason image rec) w.bus).0
  unfolding audit
  outcome-Published rec bus =
      rw bus (ground arith, refl, refl, audit_event-IsValid m pid reason image rec)

  -- What a response that does not raise tells, with a bus. Of a process that was suspended, it
  -- publishes one event, which the schema accepts, and it succeeds exactly when there is a record
  -- or no image. Otherwise it does not succeed and leaves the store and the bus as they are.
  pub quarantine_process-audit :
      {b : EventBus} {o : Outcome}
      → w.bus ≡ some b
      → response.0 ≡ ok o
      → ((suspension.0 ≡ none) × Published b o response.1.bus)
        ⊎ ((is_some suspension.0 ≡ true)
            × (o.success ≡ false)
            × (response.1.store ≡ w.store)
            × (response.1.bus ≡ w.bus))
  quarantine_process-audit {b} {o} bus h = elim (Option-cases suspension.0) [
    | inr (x, e) ↦
        let f = response-failed e in
        inr (
          rw e refl,
          ap (λ r. r.success) (sym (ok-injective (not_suspended x) o (sym (ap (λ r. r.0) f) ∙ h))),
          ap (λ r. r.1.store) f,
          ap (λ r. r.1.bus) f,
        )
    | inl e ↦ elim (Result-cases contained.0) [
      | inr (x, raised) ↦ absurd (ground (arith, ap (λ r. r.0) (response-raised e raised)))
      | inl (rec, c) ↦
          let r = response-contained e c in
          inl (
            e,
            subst (λ s. Published b o s) (sym (ap (λ y. y.1.bus) r))
                (subst (λ y. Published b y (audit (audit_event m pid reason image rec) w.bus).0)
                  (ok-injective (outcome rec) o (sym (ap (λ y. y.0) r) ∙ h))
                  (outcome-Published rec bus)),
          )
    ]
  ]
