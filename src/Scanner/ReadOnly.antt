-- ===== src/Scanner/ReadOnly.antt =====
-- `execute_scan` of sentinel/engine/scanner.py in the read-only mode, over `scan_file`.
use sentinel_antivirus.Prelude.{
  not, if◌then◌else◌, All-append, ℕ, ◌≡◌, refl, inl, inr, Bool, true, false, Option, none, some,
  List, [], ◌∷◌, arith, nat_eq, pair_eq, Bool-cases, Option-cases, All, IfAny, IfAny-some,
  IfAny-weaken, IfAny-map, Text, text_eq,
}
use sentinel_antivirus.VirusTotal.Client.{Client, lookup_hash}
use sentinel_antivirus.VirusTotal.Client.Room.{lookup_hash-capacity}
use sentinel_antivirus.StaticClassifier.{Request}
use sentinel_antivirus.StaticClassifier.Laws.{HasRoom}
use sentinel_antivirus.Quarantine
use sentinel_antivirus.Quarantine.{Os, Store}
use sentinel_antivirus.Scanner.Sample.{ThreatDetection, ScanTools, Sample}
use sentinel_antivirus.Scanner.File.{
  finish, scan_file, Scanner, sample_of, yara_threat, ask_vt, find_threat, quarantine_threat,
}
use sentinel_antivirus.Scanner.Layers.{IsAbout, find_threat-IsAbout}
use sentinel_antivirus.Scanner.Quarantining.{find_threat-total}
use sentinel_antivirus.Scanner.Scan
use sentinel_antivirus.Result.{ok, Result-cases}
use sentinel_antivirus.MemoryScanner.Region.{MemoryThreat}
use sentinel_antivirus.Scanner.Control.{cancelled, Control, begin}
use sentinel_antivirus.Scanner.Scan.{
  ScanType, quick, full, custom, Progress, no_progress, note_memory, memory_severity, Run, Phase,
  fetching, holding, over, Move, call_cancel, call_pause, call_resume, advance, start, prepare,
  new_run, scan_one, scan_held, proceed, step, run,
}
use sentinel_antivirus.Scanner.Reached.{IfOk, IfOk-ok}

-- What `scan_file` takes from outside for a file
abbrev pub Requests : Type 0
Requests = Text → Request × Quarantine.Request

-- No detection is called quarantined.
abbrev pub IsPlain : ThreatDetection → Type 0
IsPlain d = d.quarantined ≡ false

module _ {Kernel : Type 0} (os : ScanTools) (qos : Os Kernel) (reqs : Requests) where
  -- The call of `scan_file` in the loop; it has no result only if the lookup has none.
  unfoldable pub look_at : Text → Scanner Kernel → Option ThreatDetection × Scanner Kernel
  look_at path s = elim (scan_file os qos (reqs path).0 (reqs path).1 path s) [
    | none ↦ (none, s)
    | some r ↦ r
  ]

  -- A scanner in the read-only mode, with the quarantine that is given and a bucket that can hold a
  -- token
  abbrev pub IsReading : Option (Store Kernel) → Scanner Kernel → Type 0
  IsReading store s =
      (s.quarantine_store ≡ store) × (s.read_only_mode ≡ true) × HasRoom os.classifier s.vt

  ask_vt-HasRoom :
      (q : Request) (f : Sample) (vt : Option Client)
      → HasRoom os.classifier vt
      → IfAny (λ a. HasRoom os.classifier a.1) (ask_vt os q f vt)
  unfolding ask_vt
  ask_vt-HasRoom q f none h = tt
  ask_vt-HasRoom q f (some client) h =
      IfAny-map (λ a. HasRoom os.classifier a.1) _
        (lookup_hash os.classifier.py q.chance q.answer q.now f.sha256 client)
        (IfAny-weaken (λ r. r.client.token_bucket.capacity ≡ client.token_bucket.capacity) _
          (lookup_hash os.classifier.py q.chance q.answer q.now f.sha256 client)
          (λ r e. omega arith)
          (lookup_hash-capacity os.classifier.py q.chance q.answer q.now f.sha256 client))

  find_threat-HasRoom :
      (q : Request) (dynamic_analysis : Bool) (f : Sample) (vt : Option Client)
      → HasRoom os.classifier vt
      → IfAny (λ a. HasRoom os.classifier a.1) (find_threat os q dynamic_analysis f vt)
  unfolding find_threat
  find_threat-HasRoom q dynamic_analysis f vt h = elim (Option-cases (yara_threat os f)) [
    | inr (t, hit) ↦ rw (find_threat, hit) h
    | inl quiet ↦
        rw (find_threat, quiet)
          (IfAny-map (λ a. HasRoom os.classifier a.1) _ (ask_vt os q f vt)
            (ask_vt-HasRoom q f vt h))
  ]

  quarantine_threat-inhibited :
      (r : Quarantine.Request) (t : ThreatDetection) (s : Scanner Kernel)
      → s.read_only_mode ≡ true
      → quarantine_threat os qos r t s ≡ (t, s)
  unfolding quarantine_threat
  quarantine_threat-inhibited r t s ro = ground arith

  finish-IsReading :
      (r : Quarantine.Request) (f : Sample) (store : Option (Store Kernel)) (s : Scanner Kernel)
      (found : Option ThreatDetection × Option Client)
      → IsReading store s
      → HasRoom os.classifier found.1
      → IfAny (IsAbout f) found.0
      → IsReading store (finish os qos r s found).1 × IfAny IsPlain (finish os qos r s found).0
  finish-IsReading r f store s (none, vt) h room about = ((h.0, h.1, room), tt)
  finish-IsReading r f store s (some t, vt) h room about =
      rw (quarantine_threat-inhibited r t (record s { vt = vt }) h.1) ((h.0, h.1, room), about.4)

  -- The call has a result, and leaves the quarantine.
  look_at-IsReading :
      (path : Text) (store : Option (Store Kernel)) (s : Scanner Kernel)
      → IsReading store s
      → IsReading store (look_at path s).1
        × IfAny IsPlain (look_at path s).0
        × (scan_file os qos (reqs path).0 (reqs path).1 path s ≡ some (look_at path s))
  unfolding look_at scan_file
  look_at-IsReading path store s h = elim (Option-cases (sample_of os path)) [
    | inl skipped ↦ rw (look_at, scan_file, skipped) (h, tt, refl)
    | inr (f, sampled) ↦
        let q = (reqs path).0 in
        let (found, e) = find_threat-total os q s.dynamic_analysis f s.vt h.2 in
        let room =
          IfAny-some (λ a. HasRoom os.classifier a.1)
            (find_threat-HasRoom q s.dynamic_analysis f s.vt h.2) e in
        let about = find_threat-IsAbout os q s.dynamic_analysis f s.vt e in
        let kept = finish-IsReading (reqs path).1 f store s found h room about in
        rw (look_at, scan_file, sampled, e) (kept.0, kept.1, refl)
  ]

  module _ (size : Text → Option ℕ) where
    -- A scan that has left the quarantine, and has called nothing quarantined
    abbrev pub IsHarmless : Option (Store Kernel) → Run (Scanner Kernel) → Type 0
    IsHarmless store r = IsReading store r.scanner × All IsPlain r.progress.threats

    noted-IsPlain :
        (path : Text) (p : Progress) (t : Option ThreatDetection)
        → All IsPlain p.threats
        → IfAny IsPlain t
        → All IsPlain
            (Scan.note_if_any look_at size t (Scan.count_file look_at size path p)).threats
    unfolding Scan.count_file Scan.note_threat
    noted-IsPlain path p none plain k = plain
    noted-IsPlain path p (some t) plain k = All-append IsPlain p.threats (t ∷ []) plain (k, tt)

    scan_one-IsReading :
        (path : Text) (store : Option (Store Kernel)) (p : Progress) (s : Scanner Kernel)
        → IsReading store s
        → All IsPlain p.threats
        → IsReading store (scan_one look_at size path (p, s)).1
          × All IsPlain (scan_one look_at size path (p, s)).0.threats
    unfolding scan_one
    scan_one-IsReading path store p s h plain =
        let kept = look_at-IsReading path store s h in
        (kept.0, noted-IsPlain path p (look_at path s).0 plain kept.1)

    scan_held-IsHarmless :
        (files : List Text) (store : Option (Store Kernel)) (r : Run (Scanner Kernel))
        → IsHarmless store r
        → IsHarmless store (scan_held look_at size files r)
    unfolding Scan.finish
    scan_held-IsHarmless [] store r h = h
    scan_held-IsHarmless (path ∷ rest) store r h =
        scan_one-IsReading path store r.progress r.scanner h.0 h.1

    waited-IsHarmless :
        (free gone : Bool) (store : Option (Store Kernel)) (r : Run (Scanner Kernel))
        → IsHarmless store r
        → IsHarmless store (
            if not free
            then r
            else if gone
            then Scan.finish cancelled r
            else scan_held look_at size r.remaining r)
    unfolding Scan.finish
    waited-IsHarmless false gone store r h = h
    waited-IsHarmless true true store r h = h
    waited-IsHarmless true false store r h = scan_held-IsHarmless r.remaining store r h

    proceed-IsHarmless :
        (p : Phase) (store : Option (Store Kernel)) (r : Run (Scanner Kernel))
        → IsHarmless store r
        → IsHarmless store (proceed look_at size p r)
    unfolding proceed Scan.finish
    proceed-IsHarmless fetching store r h = ground arith
    proceed-IsHarmless holding store r h =
        waited-IsHarmless r.control.is_unpaused r.control.is_cancelled store r h
    proceed-IsHarmless (over summary) store r h = h

    run-IsHarmless :
        (ms : List Move) (store : Option (Store Kernel)) (r : Run (Scanner Kernel))
        → IsHarmless store r
        → IsHarmless store (run look_at size ms r)
    unfolding run step
    run-IsHarmless [] store r h = h
    run-IsHarmless (call_cancel ∷ ms) store r h = run-IsHarmless ms store _ h
    run-IsHarmless (call_pause ∷ ms) store r h = run-IsHarmless ms store _ h
    run-IsHarmless (call_resume ∷ ms) store r h = run-IsHarmless ms store _ h
    run-IsHarmless (advance ∷ ms) store r h =
        run-IsHarmless ms store (proceed look_at size r.phase r)
          (proceed-IsHarmless r.phase store r h)

    note_memory-IsPlain :
        (raises : ThreatDetection → Bool) (ts : List MemoryThreat) (p : Progress)
        → All IsPlain p.threats
        → All IsPlain (note_memory raises ts p).threats
    unfolding note_memory Scan.note_threat Scan.memory_detection
    note_memory-IsPlain raises [] p plain = plain
    note_memory-IsPlain raises (t ∷ ts) p plain =
        elim (Option-cases (memory_severity t.threat_type)) [
          | inl gated ↦ rw (note_memory, gated) (note_memory-IsPlain raises ts p plain)
          | inr (severity, passes) ↦
              let d = Scan.memory_detection t severity in
              let noted = All-append IsPlain p.threats (d ∷ []) plain (refl, tt) in
              elim (Bool-cases (raises d)) [
                | inl raised ↦ rw (note_memory, passes, raised) noted
                | inr quiet ↦
                    rw (note_memory, passes, quiet)
                      (note_memory-IsPlain raises ts (Scan.note_threat d p) noted)
              ]
        ]

    prepare-IsHarmless :
        (kind : ScanType) (progress_raises : Bool) (raises : ThreatDetection → Bool)
        (memory : Option (List MemoryThreat)) (files : List Text) (store : Option (Store Kernel))
        (s : Scanner Kernel) (c : Control)
        → IsReading store s
        → IsHarmless store (prepare kind progress_raises raises memory (new_run kind files s c))
    unfolding prepare Scan.look_at_memory Scan.finish
    prepare-IsHarmless full progress_raises raises memory files store s c h = (h, tt)
    prepare-IsHarmless custom progress_raises raises memory files store s c h = (h, tt)
    prepare-IsHarmless quick true raises memory files store s c h = (h, tt)
    prepare-IsHarmless quick false raises none files store s c h = (h, tt)
    prepare-IsHarmless quick false raises (some ts) files store s c h =
        (h, note_memory-IsPlain raises ts no_progress tt)

    start-IsHarmless :
        (kind : ScanType) (progress_raises : Bool) (raises : ThreatDetection → Bool)
        (memory : Option (List MemoryThreat)) (files : List Text) (store : Option (Store Kernel))
        (s : Scanner Kernel) (c : Control)
        → IsReading store s
        → IfOk (IsHarmless store) (start kind progress_raises raises memory files s c)
    unfolding start
    start-IsHarmless kind progress_raises raises memory files store s c h =
        elim (Result-cases (begin c)) [
          | inr (e, busy) ↦ rw (start, busy) tt
          | inl (c', begun) ↦
              rw (start, begun)
                (prepare-IsHarmless kind progress_raises raises memory files store s c' h)
        ]

    -- A scan in the read-only mode, which is the default without the automatic quarantine, leaves
    -- the quarantine as it is, whatever calls of other threads come in between and whatever it
    -- finds in files and in memory: nothing is called quarantined, and the scan of every further
    -- file has a result, as long as the bucket of the client can hold a token.
    pub scan-read_only :
        (kind : ScanType) (progress_raises : Bool) (raises : ThreatDetection → Bool)
        (memory : Option (List MemoryThreat)) (files : List Text) (s : Scanner Kernel) (c : Control)
        (ms : List Move) (path : Text) {r : Run (Scanner Kernel)}
        → s.read_only_mode ≡ true
        → HasRoom os.classifier s.vt
        → start kind progress_raises raises memory files s c ≡ ok r
        → let r' = run look_at size ms r in
          (r'.scanner.quarantine_store ≡ s.quarantine_store)
          × All IsPlain r'.progress.threats
          × (scan_file os qos (reqs path).0 (reqs path).1 path r'.scanner
              ≡ some (look_at path r'.scanner))
    scan-read_only kind progress_raises raises memory files s c ms path {r} ro room e =
        let store = s.quarantine_store in
        let begun =
          IfOk-ok (IsHarmless store)
            (start-IsHarmless kind progress_raises raises memory files store s c (refl, ro, room))
            e in
        let harmless = run-IsHarmless ms store r begun in
        let next = look_at-IsReading path store (run look_at size ms r).scanner harmless.0 in
        (harmless.0.0, harmless.1, next.2)
