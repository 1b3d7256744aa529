-- ===== src/StaticClassifier/Laws.antt =====
-- What the classifier promises: it ends, it gives signals about the file, and it looks at each hash
-- once.
use sentinel_antivirus.Prelude.{
  ◌<◌, ◌≡◌, refl, inl, inr, true, Option, none, some, List, [], ◌∷◌, map, ◌==◌, nat_eq, pair_eq,
  Bool-cases, Option-cases, beq_refl, is_empty, IfAny, IfAny-some, Text, codes, text_eq,
}
use sentinel_antivirus.Dict.{member}
use sentinel_antivirus.Result.{ok}
use sentinel_antivirus.Schema.{Event}
use sentinel_antivirus.Scoring.Signals.{Signal, new_signal}
use sentinel_antivirus.VirusTotal.Client.{Client, HashVerdict, is_eligible_path}
use sentinel_antivirus.VirusTotal.Client.Once.{lookup_hash-total}
use sentinel_antivirus.StaticClassifier.{
  Tools, Request, Classifier, event_path, file_subject, verdict_signals, ask, classify_new,
  classify_path, classify_file_event,
}

member-head : (k : Text) (ks : List Text) → member k (k ∷ ks) ≡ true
unfolding member
member-head k ks = rw (member, ◌==◌, beq_refl text_eq k) refl

module _ (os : Tools) where
  -- A client, if there is one, whose bucket can hold a token
  abbrev pub HasRoom : Option Client → Type 0
  HasRoom vt = IfAny (λ client. 0 < client.token_bucket.capacity) vt

  ask-total :
      (q : Request) (path sha256 : Text) (vt : Option Client)
      → HasRoom vt
      → (a : Option HashVerdict × Option Client) × (ask os q path sha256 vt ≡ some a)
  unfolding ask
  ask-total q path sha256 none h = ((none, none), refl)
  ask-total q path sha256 (some client) h =
      elim (Bool-cases (is_eligible_path (os.verify_signature path))) [
        | inr signed ↦ ((none, some client), rw (ask, signed) refl)
        | inl may_ask ↦
            let (r, e) = lookup_hash-total os.py q.chance q.answer q.now sha256 client h in
            ((r.verdict, some r.client), rw (ask, may_ask, e) refl)
      ]

  classify_new-total :
      (q : Request) (path bytes sha256 : Text) (c : Classifier)
      → HasRoom c.vt
      → (r : List Signal × Classifier) × (classify_new os q path bytes sha256 c ≡ some r)
        × (r.1.checked_hashes ≡ c.checked_hashes)
  unfolding classify_new
  classify_new-total q path bytes sha256 c h = elim (Bool-cases (is_empty (os.yara_scan bytes))) [
    | inr hits ↦
        let gs =
          map
            (λ _.
              new_signal q.now (codes "yara_match") (file_subject os sha256) (codes "yara_scanner"))
            (os.yara_scan bytes) in
        ((gs, c), rw (classify_new, hits) refl, refl)
    | inl quiet ↦
        let (a, e) = ask-total q path sha256 c.vt h in
        (
          (verdict_signals os q.now path bytes sha256 a.0, record c { vt = a.1 }),
          rw (classify_new, quiet, e) refl,
          refl,
        )
  ]

  -- What `classify_path` gives: nothing for a file that cannot be read, and else a result with its
  -- hash noted
  classify_path-total :
      (q : Request) (path : Text) (c : Classifier)
      → HasRoom c.vt
      → (r : List Signal × Classifier) × (classify_path os q path c ≡ some r)
        × IfAny
            (λ bytes. member (os.sha256_hex bytes) r.1.checked_hashes ≡ true)
            (os.read_bytes path)
  unfolding classify_path
  classify_path-total q path c h = elim (Option-cases (os.read_bytes path)) [
    | inl unread ↦ (([], c), rw (classify_path, unread) refl, rw unread tt)
    | inr (bytes, read) ↦ elim (Bool-cases (member (os.sha256_hex bytes) c.checked_hashes)) [
      | inl old ↦ (([], c), rw (classify_path, read, old) refl, rw read old)
      | inr new ↦
          let sha256 = os.sha256_hex bytes in
          let noted = record c { checked_hashes = sha256 ∷ c.checked_hashes } in
          let (r, e, same) = classify_new-total q path bytes sha256 noted h in
          (
            r,
            rw (classify_path, read, new) e,
            rw (read, same) (member-head sha256 c.checked_hashes),
          )
    ]
  ]

  classify_file_event-path :
      (q : Request) (e : Event) (c : Classifier) {path : Text} {r : List Signal × Classifier}
      → event_path e ≡ ok (some path)
      → classify_path os q path c ≡ some r
      → classify_file_event os q e c ≡ some (ok r.0, r.1)
  unfolding classify_file_event
  classify_file_event-path q e c p k = rw (classify_file_event, p, k) refl

  classify_path-old :
      (q : Request) (path : Text) (c : Classifier) {bytes : Text}
      → os.read_bytes path ≡ some bytes
      → member (os.sha256_hex bytes) c.checked_hashes ≡ true
      → classify_path os q path c ≡ some ([], c)
  unfolding classify_path
  classify_path-old q path c read old = rw (classify_path, read, old) refl

  -- A file is looked at once for each hash: after an event about a file that can be read has been
  -- handled, the next event about a file with that hash gives no signals and changes nothing,
  -- whatever YARA, VirusTotal and the model would say. Handling the first ends, as long as the
  -- client's bucket can hold a token.
  pub classify_file_event-once :
      (q q' : Request) (e e' : Event) (c : Classifier) {path path' bytes bytes' : Text}
      → HasRoom c.vt
      → event_path e ≡ ok (some path)
      → event_path e' ≡ ok (some path')
      → os.read_bytes path ≡ some bytes
      → os.read_bytes path' ≡ some bytes'
      → os.sha256_hex bytes' ≡ os.sha256_hex bytes
      → (r : List Signal × Classifier) × (classify_file_event os q e c ≡ some (ok r.0, r.1))
        × (classify_file_event os q' e' r.1 ≡ some (ok [], r.1))
  classify_file_event-once q q' e e' c {path} {path'} {bytes} {bytes'} h p p' b b' same =
      let (r, k, noted) = classify_path-total q path c h in
      let old = IfAny-some (λ s. member (os.sha256_hex s) r.1.checked_hashes ≡ true) noted b in
      (
        r,
        classify_file_event-path q e c p k,
        classify_file_event-path q' e' r.1 p' (classify_path-old q' path' r.1 b' (rw same old)),
      )
