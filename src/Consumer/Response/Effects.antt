-- ===== src/Consumer/Response/Effects.antt =====
-- Which processes a response suspends, and which files it leaves alone.
use sentinel_antivirus.Prelude.{
  ℕ, ◌≡◌, refl, sym, ◌∙◌, inl, inr, Bool, true, false, ◌&&◌, Option, none, some, List, [], ◌∷◌,
  arith, ◌==◌, nat_eq, pair_eq, Bool-cases, Option-cases, beq_refl, any_of, is_empty, IfAny-some,
  Text, text_eq,
}
use mathlib.Core.Path.{subst}
use sentinel_antivirus.Dict.{Dict}
use sentinel_antivirus.Quarantine.Restore.{restore_lem}
use sentinel_antivirus.Dict.{lookup}
use sentinel_antivirus.Dict.{}
use sentinel_antivirus.Result.{ok, Result-cases}
use sentinel_antivirus.Builtins.{Python}
use sentinel_antivirus.Schema.{Event}
use sentinel_antivirus.Scoring.Signals.{Signal, SubjectScore}
use sentinel_antivirus.Scoring.Scorer.{Scorer, get}
use sentinel_antivirus.Quarantine.{
  restored, decision_beq, deleted, File, find_row, restore, QuarantineRecord, Store, Os,
  is_restored, sha256_of,
}
use sentinel_antivirus.Quarantine.Restore.{}
use sentinel_antivirus.Kernel.Bridge.{Driver, KernelBridge}
use sentinel_antivirus.Responder.{
  Processes, suspend_process, Moment, Machine, respond, quarantine_process,
}
use sentinel_antivirus.Consumer.Response.{
  Scene, response_pid, event_file, contain_file, respond_to_file, respond_to_process,
  execute_response, event_image, kinds_of,
}

find_row-head :
    (id : Text) (x : QuarantineRecord) (rs : List QuarantineRecord)
    → (x.id == id) ≡ true
    → find_row id (x ∷ rs) ≡ some x
unfolding find_row
find_row-head id x rs same = rw (find_row, same) refl

-- A row that passes a test, and that is found, is one of the table's.
find_row-any_of :
    (p : QuarantineRecord → Bool) (id : Text) (rs : List QuarantineRecord) {r : QuarantineRecord}
    → find_row id rs ≡ some r
    → p r ≡ true
    → any_of p rs ≡ true
unfolding find_row
find_row-any_of p id [] h t = absurd (cc)
find_row-any_of p id (x ∷ rs) {r} h t = elim (Bool-cases (x.id == id)) [
  | inl same ↦
      let first =
        IfAny-some (λ y. p y ≡ true) {o = some r} {a = x} t (sym h ∙ find_row-head id x rs same) in
      ground (arith, first)
  | inr other ↦ ground (arith, find_row-any_of p id rs {r = r})
]

module _ {Procs Port : Type 0} (nt : Processes Procs) (os : Os (KernelBridge Port))
    (driver : Driver Port) where
  respond-procs :
      (m : Moment) (pid : ℕ) (reason : Text) (signals : List Text) (scorer : Scorer)
      (path : Option Text) (w : Machine Procs Port)
      → (respond nt os driver m pid reason signals scorer path w).1.procs ≡ w.procs
  unfolding respond
  respond-procs m pid reason signals scorer path w =
      elim (Result-cases
        (sentinel_antivirus.Responder.contain os driver m pid reason signals scorer path
          w.store).0) [ inl (rec, e) ↦ rw (respond, e) refl | inr (x, e) ↦ rw (respond, e) refl ]

  quarantine_process-procs :
      (m : Moment) (pid : ℕ) (reason : Text) (signals : List Text) (scorer : Scorer)
      (image_path : Option Text) (w : Machine Procs Port)
      → (quarantine_process nt os driver m pid reason signals scorer image_path w).1.procs
        ≡ (suspend_process nt (some pid) w.procs).1
  unfolding quarantine_process
  quarantine_process-procs m pid reason signals scorer image_path w =
      elim (Option-cases (suspend_process nt (some pid) w.procs).0) [
        | inl e ↦ rw (quarantine_process, e) (respond-procs m pid reason signals scorer _ _)
        | inr (x, e) ↦ rw (quarantine_process, e) refl
      ]

  respond_to_file-procs :
      (m : Moment) (subject reason : Text) (sig : Signal) (score : Option SubjectScore)
      (event : Option Event) (w : Scene Procs Port)
      → (respond_to_file os driver m subject reason sig score event w).1.machine.procs
        ≡ w.machine.procs
  unfolding respond_to_file
  respond_to_file-procs m subject reason sig score event w =
      elim (Result-cases (event_file os driver event w.machine.store)) [
        | inr (x, e) ↦ rw (respond_to_file, e) refl
        | inl (none, e) ↦ rw (respond_to_file, e) refl
        | inl (some path, e) ↦
            elim (Bool-cases
              (is_restored (sha256_of os path w.machine.store.files) w.machine.store)) [
                | inl old ↦ rw (respond_to_file, e, old) refl
                | inr new ↦
                    elim (Result-cases
                      (contain_file os driver m subject reason sig score path w.machine.store).0) [
                        | inl (rec, c) ↦ rw (respond_to_file, e, new, c) refl
                        | inr (x, c) ↦ rw (respond_to_file, e, new, c) refl
                      ]
              ]
      ]

  respond_to_process-procs :
      (m : Moment) (pid : ℕ) (reason : Text) (sig : Signal) (scorer : Scorer)
      (score : Option SubjectScore) (event : Option Event) (w : Scene Procs Port)
      → (respond_to_process nt os driver m pid reason sig scorer score event w).1.machine.procs
        ≡ (suspend_process nt (some pid) w.machine.procs).1
  unfolding respond_to_process
  respond_to_process-procs m pid reason sig scorer score event w =
      let p =
        quarantine_process-procs m pid reason (kinds_of score sig) scorer (event_image pid event)
          w.machine in
      elim (Result-cases
        (quarantine_process nt os driver m pid reason (kinds_of score sig) scorer
          (event_image pid event) w.machine).0) [
            | inl (o, e) ↦ rw (respond_to_process, e) p
            | inr (x, e) ↦ rw (respond_to_process, e) p
          ]

  -- Of all processes, a response suspends at most the one of its subject, and none where the
  -- subject is no number.
  pub execute_response-procs :
      (py : Python) (m : Moment) (subject reason : Text) (sig : Signal) (scorer : Scorer)
      (event : Option Event) (w : Scene Procs Port)
      → (execute_response nt os driver py m subject reason sig scorer event w).1.machine.procs
        ≡ elim (response_pid py subject) [
          | none ↦ w.machine.procs
          | some pid ↦ (suspend_process nt (some pid) w.machine.procs).1
        ]
  unfolding execute_response
  execute_response-procs py m subject reason sig scorer event w =
      elim (Option-cases (response_pid py subject)) [
        | inl e ↦
            rw (execute_response, e)
              (respond_to_file-procs m subject reason sig (get subject scorer) event w)
        | inr (pid, e) ↦
            rw (execute_response, e)
              (respond_to_process-procs m pid reason sig scorer (get subject scorer) event w)
      ]

  -- A record that can be put back: its copy is there as it was recorded, and the system refuses
  -- nothing.
  abbrev pub IsIntact : Text → QuarantineRecord → File → Store (KernelBridge Port) → Type 0
  IsIntact id r f s =
      (find_row id s.rows ≡ some r)
      × (decision_beq r.decision deleted ≡ false)
      × (lookup (os.resolve r.quarantined_path) s.files ≡ some f)
      × (os.sha256_hex f.bytes ≡ r.sha256)
      × (is_empty r.sha256 ≡ false)
      × (os.copy_denied r.quarantined_path r.original_path ≡ false)
      × (os.chmod_denied r.original_path ≡ false)
      × (os.read_denied r.original_path ≡ false)

  sha256_of-file :
      (path : Text) {f : File} (files : Dict Text File)
      → os.read_denied path ≡ false
      → lookup (os.resolve path) files ≡ some f
      → sha256_of os path files ≡ os.sha256_hex f.bytes
  unfolding sha256_of
  sha256_of-file path files a l = rw (sha256_of, a, l) refl

  restore-is_restored :
      (id notes : Text) (now : ℕ) (r : QuarantineRecord) (f : File) (s : Store (KernelBridge Port))
      → IsIntact id r f s
      → let s' = (restore os id notes now s).1 in
        is_restored (sha256_of os r.original_path s'.files) s' ≡ true
  unfolding is_restored decision_beq sentinel_antivirus.Quarantine.get
  restore-is_restored id notes now r f s (g, d, l, sha, full, c, p, a) =
      let (_, back, row) = restore_lem os r f id notes now s g d l c p in
      let s' = (restore os id notes now s).1 in
      let digest = sha256_of-file r.original_path s'.files a back ∙ sha in
      rw (digest) (
        rw (is_restored, full)
          (find_row-any_of (λ x. x.sha256 == r.sha256 && decision_beq x.decision restored) id
            s'.rows row (rw (◌==◌, beq_refl text_eq r.sha256) refl)))

  -- A file that the user restored is left alone: while it is the file of the event, a response to a
  -- subject that is no process does nothing, whatever the signal.
  pub execute_response-restored :
      (py : Python) (m : Moment) (subject reason : Text) (sig : Signal) (scorer : Scorer)
      (event : Option Event) (w : Scene Procs Port) (id notes : Text) (now : ℕ)
      (r : QuarantineRecord) (f : File) (s : Store (KernelBridge Port))
      → IsIntact id r f s
      → w.machine.store ≡ (restore os id notes now s).1
      → response_pid py subject ≡ none
      → event_file os driver event w.machine.store ≡ ok (some r.original_path)
      → execute_response nt os driver py m subject reason sig scorer event w ≡ (none, w)
  unfolding execute_response respond_to_file
  execute_response-restored py m subject reason sig scorer event w id notes now r f s h k pid file =
      let old =
        subst (λ t. is_restored (sha256_of os r.original_path t.files) t ≡ true) (sym k)
          (restore-is_restored id notes now r f s h) in
      rw (execute_response, pid, respond_to_file, file, old) refl
