-- ===== src/Scanner/Quarantining.antt =====
-- What `scan_file` does with the file in which it finds something.
use sentinel_antivirus.Prelude.{
  ◌≡◌, refl, ap, ◌∙◌, inl, inr, Bool, true, false, Option, none, some, arith, nat_eq, pair_eq,
  Option-cases, IfAny, Text, text_eq,
}
use sentinel_antivirus.Dict.{lookup}
use sentinel_antivirus.Result.{ok}
use mathlib.Core.Path.{subst}
use sentinel_antivirus.VirusTotal.Client.{Client, HashVerdict}
use sentinel_antivirus.VirusTotal.Client.Once.{lookup_hash-total}
use sentinel_antivirus.StaticClassifier.{Request}
use sentinel_antivirus.StaticClassifier.Laws.{HasRoom}
use sentinel_antivirus.Quarantine
use sentinel_antivirus.Quarantine.{Os, Store, File, find_row, record_of, get}
use sentinel_antivirus.Quarantine.Add.{CanMove, isolated, target, add_lem}
use sentinel_antivirus.Scanner.Layers.{IsAbout, find_threat-IsAbout}
use sentinel_antivirus.Scanner.Sample.{ThreatDetection, ScanTools, Sample, or_else}
use sentinel_antivirus.Scanner.File.{
  finish, scan_file, Scanner, yara_threat, ask_vt, find_threat, vt_threat, local_threat,
  quarantine_request, quarantine_threat, sample_of,
}

module _ (os : ScanTools) where
  ask_vt-total :
      (q : Request) (f : Sample) (vt : Option Client)
      → HasRoom os.classifier vt
      → (a : Option HashVerdict × Option Client) × (ask_vt os q f vt ≡ some a)
  unfolding ask_vt
  ask_vt-total q f none h = ((none, none), refl)
  ask_vt-total q f (some client) h =
      let (r, e) = lookup_hash-total os.classifier.py q.chance q.answer q.now f.sha256 client h in
      ((r.verdict, some r.client), rw (ask_vt, e) refl)

  pub find_threat-total :
      (q : Request) (dynamic_analysis : Bool) (f : Sample) (vt : Option Client)
      → HasRoom os.classifier vt
      → (r : Option ThreatDetection × Option Client) × (find_threat os q dynamic_analysis f vt
          ≡ some r)
  unfolding find_threat
  find_threat-total q dynamic_analysis f vt h = elim (Option-cases (yara_threat os f)) [
    | inr (t, hit) ↦ ((some t, vt), rw (find_threat, hit) refl)
    | inl quiet ↦
        let (a, e) = ask_vt-total q f vt h in
        (
          (or_else (vt_threat os f a.0) (local_threat os dynamic_analysis f), a.1),
          rw (find_threat, quiet, e) refl,
        )
  ]

module _ {Kernel : Type 0} (os : ScanTools) (qos : Os Kernel) where
  quarantine_threat-read_only :
      (r : Quarantine.Request) (t : ThreatDetection) (s : Scanner Kernel)
      → s.read_only_mode ≡ true
      → ((quarantine_threat os qos r t s).0 ≡ t)
        × ((quarantine_threat os qos r t s).1.quarantine_store ≡ s.quarantine_store)
  unfolding quarantine_threat
  quarantine_threat-read_only r t s ro = ground arith

  finish-read_only :
      (r : Quarantine.Request) (f : Sample) (s : Scanner Kernel)
      (found : Option ThreatDetection × Option Client)
      → s.read_only_mode ≡ true
      → IfAny (IsAbout f) found.0
      → ((finish os qos r s found).1.quarantine_store ≡ s.quarantine_store)
        × IfAny (λ d. d.quarantined ≡ false) (finish os qos r s found).0
  finish-read_only r f s (none, vt) ro about = (refl, tt)
  finish-read_only r f s (some t, vt) ro about =
      let (same, kept) = quarantine_threat-read_only r t (record s { vt = vt }) ro in
      (kept, ap (λ d. d.quarantined) same ∙ about.4)

  -- In the read-only mode, which is the default without the automatic quarantine, a scan of a file
  -- leaves the quarantine as it is, and what it finds is not called quarantined. It ends, as long
  -- as the client's bucket can hold a token.
  pub scan_file-read_only :
      (q : Request) (r : Quarantine.Request) (path : Text) (s : Scanner Kernel)
      → HasRoom os.classifier s.vt
      → s.read_only_mode ≡ true
      → (t : Option ThreatDetection) × (s' : Scanner Kernel) × (scan_file os qos q r path s
          ≡ some (t, s'))
        × (s'.quarantine_store ≡ s.quarantine_store)
        × IfAny (λ d. d.quarantined ≡ false) t
  unfolding scan_file
  scan_file-read_only q r path s room ro = elim (Option-cases (sample_of os path)) [
    | inl skipped ↦ (none, s, rw (scan_file, skipped) refl, refl, tt)
    | inr (f, sampled) ↦
        let (found, e) = find_threat-total os q s.dynamic_analysis f s.vt room in
        let (kept, plain) =
          finish-read_only r f s found ro (find_threat-IsAbout os q s.dynamic_analysis f s.vt e) in
        (
          (finish os qos r s found).0,
          (finish os qos r s found).1,
          rw (scan_file, sampled, e) refl,
          kept,
          plain,
        )
  ]

  quarantine_threat-added :
      (r : Quarantine.Request) (t : ThreatDetection) (s : Scanner Kernel) (store : Store Kernel)
      (vt : Option Client)
      → s.quarantine_store ≡ some store
      → t.is_memory ≡ false
      → s.read_only_mode ≡ false
      → s.auto_quarantine ≡ true
      → (Quarantine.add qos (quarantine_request r t) store).0
        ≡ ok (some (record_of qos (quarantine_request r t) store.files))
      → quarantine_threat os qos r t (record s { vt = vt }) ≡ (
        record t { quarantined = true; quarantine_id = some r.entry_id },
        record s {
          vt = vt;
          quarantine_store = some (Quarantine.add qos (quarantine_request r t) store).1;
        },
      )
  unfolding quarantine_threat record_of
  quarantine_threat-added r t s store vt there disk writes auto added =
      rw (quarantine_threat, there, disk, writes, auto, added) refl

  -- With the automatic quarantine and outside the read-only mode, a file in which a layer finds
  -- something is put into the quarantine, where the system can move and record it: the detection
  -- has the record's identifier, the record is in the table, the file is gone, and its copy can be
  -- neither run nor written.
  pub scan_file-quarantines :
      (q : Request) (r : Quarantine.Request) (path : Text) (s : Scanner Kernel) (f : Sample)
      (file : File) (store : Store Kernel) (t : ThreatDetection) (vt : Option Client)
      → s.quarantine_store ≡ some store
      → s.read_only_mode ≡ false
      → s.auto_quarantine ≡ true
      → sample_of os path ≡ some f
      → find_threat os q s.dynamic_analysis f s.vt ≡ some (some t, vt)
      → CanMove qos (quarantine_request r t) file store
      → r.insert_denied ≡ false
      → find_row r.entry_id store.rows ≡ none
      → (s' : Scanner Kernel) × (store' : Store Kernel) × (scan_file os qos q r path s
          ≡ some (some (record t { quarantined = true; quarantine_id = some r.entry_id }), s'))
        × (s'.quarantine_store ≡ some store')
        × (get r.entry_id store' ≡ some (record_of qos (quarantine_request r t) store.files))
        × (lookup (qos.resolve f.path) store'.files ≡ none)
        × (lookup (qos.resolve (target qos (quarantine_request r t))) store'.files
            ≡ some (isolated file))
  unfolding scan_file
  scan_file-quarantines q r path s f file store t vt there writes auto sampled found can ins new =
      let about = find_threat-IsAbout os q s.dynamic_analysis f s.vt found in
      let request = quarantine_request r t in
      let (added, kept, gone, copied) = add_lem qos request file store can ins new in
      let store' = (Quarantine.add qos request store).1 in
      (
        record s { vt = vt; quarantine_store = some store' },
        store',
        rw (scan_file, sampled, found)
            (ap {B = Option (Option ThreatDetection × Scanner Kernel)}
              (λ (d : ThreatDetection × Scanner Kernel). some (some d.0, d.1))
              (quarantine_threat-added r t s store vt there about.5 writes auto added)),
        refl,
        kept,
        subst (λ p. lookup (qos.resolve p) store'.files ≡ none) about.2 gone,
        copied,
      )
