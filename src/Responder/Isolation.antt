-- ===== src/Responder/Isolation.antt =====
-- The process, the image and the driver after a response that nothing refuses.
use sentinel_antivirus.Prelude.{
  ℕ, ◌≡◌, refl, ap, ◌∙◌, inl, inr, Bool, true, false, Option, none, some, List, [], ◌∷◌, ◌++◌,
  arith, nat_eq, pair_eq, Bool-cases, Text, codes, text_eq,
}
use sentinel_antivirus.Dict.{Dict, lookup, has_key}
use mathlib.Core.Option
use sentinel_antivirus.Responder.Outcomes.{suspension, image, response-contained}
use sentinel_antivirus.Result.{Result, ok, err}
use sentinel_antivirus.Scoring.Signals.{SubjectScore, format_pid_subject}
use sentinel_antivirus.Scoring.Scorer.{Scorer, get}
use sentinel_antivirus.Quarantine.{
  QuarantineRecord, File, Os, Store, Request, find_row, insert_row, record_of,
}
use sentinel_antivirus.Quarantine.Add.{lookup-moved, target, isolated, moved, CanMove, add-moved}
use sentinel_antivirus.Kernel.Blocklist.{Contents, HashBlocklist, is_sha256, identify, add_hash}
use sentinel_antivirus.Kernel.Bridge.{Driver, KernelBridge, add_block, is_protected}
use sentinel_antivirus.Kernel.Bridge.Laws.{add_block-cases, add_block-told, sent}
use sentinel_antivirus.Kernel.Bridge.Hashes.{has_key-insert_twice}
use sentinel_antivirus.Responder.{
  quarantine_process, Processes, Moment, Machine, request_of, contents, block, isolate, contain,
}

abbrev pub returned {ℓ} : {T : Type ℓ} → Result T → Option T
returned (ok x) = some x
returned (err e) = none

module _ {Port : Type 0} (driver : Driver Port) where
  -- Blocking a path that holds no file, and that is not itself written as a hash
  add_hash-missing :
      (files : Contents) (now : ℕ) (path reason : Text) (l : HashBlocklist)
      → is_sha256 (driver.tools.py.lower (driver.tools.py.strip path)) ≡ false
      → files path ≡ none
      → (add_hash driver.tools files now path reason none l).1 ≡ l
  unfolding add_hash identify
  add_hash-missing files now path reason l s f = rw (add_hash, identify, s, f) refl

  -- The signature check finds no signature where there is no file.
  abbrev pub FindsNone : Type 0
  FindsNone =
      (files : Contents) (path : Text)
      → files path ≡ none
      → is_protected (driver.verify_signature files path) false ≡ false

  add_block-missing :
      (files : Contents) (now : ℕ) (path : Text) (b : KernelBridge Port)
      → FindsNone
      → is_sha256 (driver.tools.py.lower (driver.tools.py.strip path)) ≡ false
      → files path ≡ none
      → ((add_block driver files now path false b).1.hash_blocklist ≡ b.hash_blocklist)
        × (b.connected ≡ true
            → ((add_block driver files now path false b).1.port ≡ (sent driver path b).1)
              × (has_key path (add_block driver files now path false b).1.blocked_paths ≡ true))
  add_block-missing files now path b finds s f =
      elim (add_block-cases driver files now path false b) [
        | inl (protected, _) ↦ absurd (ground (arith, finds files path f))
        | inr (_, h, _, p) ↦ (
          h ∙ add_hash-missing files now path (codes "kernel_block") b.hash_blocklist s f,
          λ c. (
            (add_block-told driver files now path false b c (finds files path f)).1,
            rw (p, c)
                (has_key-insert_twice path (driver.dos_to_nt_path path) (driver.dos_to_nt_path path)
                  b.blocked_paths),
          ),
        )
      ]

module _ {Port : Type 0} (os : Os (KernelBridge Port)) (driver : Driver Port) where
  contents-missing :
      (path : Text) (files : Dict Text File)
      → lookup (os.resolve path) files ≡ none
      → contents os driver files path ≡ none
  contents-missing path files gone = elim (Bool-cases (os.read_denied path)) [
    | inl denied ↦ rw (contents, denied) refl
    | inr allowed ↦ rw (contents, allowed, gone) refl
  ]

  block-bridge :
      (now : ℕ) (path : Text) (s : Store (KernelBridge Port)) {b : KernelBridge Port}
      → s.kernel_bridge ≡ some b
      → block os driver now path s ≡ record s {
        kernel_bridge = some (add_block driver (contents os driver s.files) now path false b).1;
      }
  unfolding block
  block-bridge now path s k = rw (block, k) refl

  add-isolates :
      (q : Request) (f : File) (s : Store (KernelBridge Port))
      → CanMove os q f s
      → q.insert_denied ≡ false
      → find_row q.entry_id s.rows ≡ none
      → sentinel_antivirus.Quarantine.add os q s ≡ (
        ok (some (record_of os q s.files)),
        record s { rows = s.rows ++ record_of os q s.files ∷ []; files = moved os q f s },
      )
  unfolding insert_row record_of
  add-isolates q f s h i n = add-moved os q f s h ∙ rw (insert_row, i, n) refl

module _ {Procs Port : Type 0} (nt : Processes Procs) (os : Os (KernelBridge Port))
    (driver : Driver Port) (m : Moment) (pid : ℕ) (reason : Text) (signals : List Text)
    (scorer : Scorer) (image_path : Option Text) (w : Machine Procs Port) where
  -- The request that the response makes for an image and a score
  abbrev request : Text → SubjectScore → Request
  request path c = request_of m path (format_pid_subject pid none) reason c.total signals

  isolate-found :
      (path : Text) (c : SubjectScore)
      → get (format_pid_subject pid none) scorer ≡ some c
      → isolate os driver m pid reason signals scorer path w.store
        ≡ sentinel_antivirus.Quarantine.add os (request path c) w.store
  unfolding isolate
  isolate-found path c g = rw (isolate, g) refl

  contained-isolates :
      (path : Text) (c : SubjectScore) (f : File) {b : KernelBridge Port}
      → get (format_pid_subject pid none) scorer ≡ some c
      → CanMove os (request path c) f w.store
      → m.insert_denied ≡ false
      → find_row m.entry_id w.store.rows ≡ none
      → w.store.kernel_bridge ≡ some b
      → let files = moved os (request path c) f w.store in
        contain os driver m pid reason signals scorer (some path) w.store ≡ (
          ok (some (record_of os (request path c) w.store.files)),
          record w.store {
            rows = w.store.rows ++ record_of os (request path c) w.store.files ∷ [];
            files = files;
            kernel_bridge = some (add_block driver (contents os driver files) m.now path false b).1;
          },
        )
  unfolding contain
  contained-isolates path c f {b} g h i n k =
      let added =
        isolate-found path c g ∙ add-isolates os driver (request path c) f w.store h i n in
      rw (contain, added, added)
        (ap (λ s. (ok (some (record_of os (request path c) w.store.files)), s))
          (block-bridge os driver m.now path _ k))

  -- What the bridge is after a response that moved the file: a connected one has sent the driver the
  -- one command to block the device path, and has the path in its table.
  abbrev pub Blocks : Text → KernelBridge Port → Option (KernelBridge Port) → Type 0
  Blocks path b bridge =
      (b' : KernelBridge Port) × (bridge ≡ some b')
      × (b'.hash_blocklist ≡ b.hash_blocklist)
      × (b.connected ≡ true
          → (b'.port ≡ (sent driver path b).1) × (has_key path b'.blocked_paths ≡ true))

  -- A response to a process that can be suspended, whose score is known and whose image the store
  -- can move and record, succeeds with the record. The image is gone from its path, its copy can be
  -- neither run nor written, and a connected bridge has sent the driver the one command to block the
  -- device path, whoever signed the image, and has the path in its table. That the driver accepts is
  -- not said: the response succeeds whatever it answers. The hash blocklist stays as it was: the file
  -- is gone when the bridge looks for it. This is under the conditions that the path is not written
  -- as a hash, that the signature check finds no valid signature of Microsoft's at a path without a
  -- file, and that the store has a bridge.
  pub quarantine_process-isolates :
      (path : Text) (c : SubjectScore) (f : File) {b : KernelBridge Port}
      → FindsNone driver
      → (suspension nt os driver m pid reason signals scorer image_path w).0 ≡ none
      → image nt os driver m pid reason signals scorer image_path w ≡ some path
      → get (format_pid_subject pid none) scorer ≡ some c
      → CanMove os (request path c) f w.store
      → m.insert_denied ≡ false
      → find_row m.entry_id w.store.rows ≡ none
      → w.store.kernel_bridge ≡ some b
      → is_sha256 (driver.tools.py.lower (driver.tools.py.strip path)) ≡ false
      → let (result, w') =
          quarantine_process nt os driver m pid reason signals scorer image_path w in
        (Option.map {B = Bool × Option QuarantineRecord}
            (λ o. (o.success, o.quarantine))
            (returned result)
          ≡ some (true, some (record_of os (request path c) w.store.files)))
        × (lookup (os.resolve path) w'.store.files ≡ none)
        × (lookup (os.resolve (target os (request path c))) w'.store.files ≡ some (isolated f))
        × Blocks path b w'.store.kernel_bridge
  quarantine_process-isolates path c f {b} finds e found g h i n k s =
      let eq =
        ap (λ p. contain os driver m pid reason signals scorer p w.store) found
        ∙ contained-isolates path c f g h i n k in
      let files = moved os (request path c) f w.store in
      let (gone, copied) = lookup-moved os (request path c) f w.store h in
      let (hashes, paths) =
        add_block-missing driver (contents os driver files) m.now path b finds s
          (contents-missing os driver path files gone) in
      rw
        (
          response-contained nt os driver m pid reason signals scorer image_path w
              {rec = some (record_of os (request path c) w.store.files)} e (ap (λ x. x.0) eq),
          ap (λ x. x.1) eq,
        )
        (refl, gone, copied, (_, refl, hashes, paths))
