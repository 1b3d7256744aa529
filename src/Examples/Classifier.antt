-- ===== src/Examples/Classifier.antt =====
-- A program that is named like a document, written twice.
use sentinel_antivirus.Prelude.{
  ℕ, ◌-◌, ◌≡◌, refl, false, none, some, List, [], ◌∷◌, arith, if◌then◌else◌, nat_eq, pair_eq, codes,
  text_beq, text_eq, first,
}
use sentinel_antivirus.Result.{ok}
use sentinel_antivirus.Schema.{Event}
use sentinel_antivirus.Scoring.Signals.{Signal, new_signal}
use sentinel_antivirus.VirusTotal.Client.{not_found}
use sentinel_antivirus.StaticClassifier.{
  Tools, Request, Classifier, event_path, split_dots, local_signals, verdict_signals, is_deceptive,
  ask, classify_new, classify_path, classify_file_event,
}
use sentinel_antivirus.StaticClassifier.Laws.{classify_file_event-once}
use sentinel_antivirus.Examples.{plain_python, event}
use sentinel_antivirus.Examples.VirusTotal.{sha, client, chance}

abbrev pub tools : Tools
tools = record {
  py = plain_python;
  read_bytes = λ p. some (codes "MZ");
  file_name = λ p. codes "bill.pdf.exe";
  suffix = λ p. codes ".exe";
  sha256_hex = λ b. sha;
  yara_scan = λ b. [];
  verify_signature = λ p. none;
  extract_pe_features = λ p b. none;
  pe_is_suspicious = λ f b. false;
}

abbrev pub request : Request
request = record { chance = chance; answer = not_found; now = 5 }

abbrev classifier : Classifier
classifier = record { vt = some client; checked_hashes = [] }

abbrev written : Event
written = event (codes "fs") (codes "file_write") 7 []

classify_file_event-once_example :
    (r : List Signal × Classifier) × (classify_file_event tools request written classifier
      ≡ some (ok r.0, r.1))
    × (classify_file_event tools request written r.1 ≡ some (ok [], r.1))
unfolding event_path sentinel_antivirus.Prelude.text_beq
classify_file_event-once_example =
    classify_file_event-once tools request request written written classifier (omega arith) refl
      refl refl refl refl

abbrev offline : Classifier
offline = record { vt = none; checked_hashes = [] }

abbrev signals : List Signal
signals =
    new_signal 5 (codes "pe_double_extension") (codes "file:aaaaaaaaaaaaaaaa")
      (codes "static_classifier")
    ∷ []

offline-signals :
    classify_file_event tools request written offline
    ≡ some (ok signals, record offline { checked_hashes = sha ∷ [] })
unfolding classify_file_event classify_path classify_new ask verdict_signals local_signals
    is_deceptive split_dots event_path sentinel_antivirus.Prelude.text_beq
    sentinel_antivirus.Prelude.first sentinel_antivirus.Dict.member
offline-signals = refl
