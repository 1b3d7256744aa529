-- ===== src/Lib.antt =====
-- A model of the detection core of the Sentinel antivirus, and what holds of it.
--
-- Sensors publish events on a bus; a consumer hands each event to the rule engine and to the
-- heuristics, whose signals the scorer adds up for each subject; where the scorer asks for a
-- response, the process is suspended, the file goes into the quarantine and its path onto the list of
-- the driver, and an event on the bus tells of it. Beside this, canary files are deployed and
-- inspected, a client asks VirusTotal for a hash, a memory scanner looks for code that no file backs,
-- a scanner goes through folders and asks YARA, VirusTotal, a model and the sandbox of each file, and a
-- watchdog restarts the service.
--
-- Schema: sentinel/engine/schema.py and `normalize` of sentinel/engine/event_bus.py.
-- Bus: `EventBus` of sentinel/engine/event_bus.py.
-- Scoring: sentinel/engine/scoring.py, with Signals (`WEIGHTS`, `Signal`, `SubjectScore`), Dll
--   (`DllReputationCache`, `score_dll_load`) and Scorer (`Scorer`).
-- Heuristics: sentinel/engine/heuristics_bruteforce.py, heuristics_ransomware.py, heuristics_c2.py
--   (Network) and heuristics_cryptomining.py (Mining). Window is the sliding window that two of
--   them share.
-- Rules: sentinel/engine/rule_engine.py, with Match (`_lookup_field`, `_match_value`,
--   `_Selection`), Condition (`_Condition`) and Engine (`Rule`, `RuleEngine`).
-- Consumer: `DetectionConsumer` of sentinel/engine/consumer.py, with `process_event`,
--   `_periodic_checks` and the items of `_run_consumer`, and Response (`_execute_response`).
-- Responder: sentinel/response/responder.py.
-- Kernel: sentinel/kernel/bridge.py, with Blocklist (`HashBlocklist`) and Bridge (`KernelBridge`).
-- Authenticode: the verdict of sentinel/engine/authenticode.py, as its callers read it.
-- Canary: sentinel/engine/canary.py, with Templates (`CANARY_TEMPLATES`).
-- VirusTotal: sentinel/intel/virustotal_client.py, with Bucket (`TokenBucket`) and Client
--   (`VirusTotalClient`).
-- StaticClassifier: `StaticClassifier` of sentinel/engine/static_classifier.py.
-- Watchdog: sentinel/watchdog_svc.py.
-- Sandbox: sentinel/sandbox/emulator.py, with Memory (`VirtualMemory`) and Emulator (`ror13`, the
--   simulated calls and `_evaluate_risk`); Report (`SandboxReport`) and Runner (`run_binary` and
--   `analyze`) for sentinel/sandbox/runner.py.
-- MemoryScanner: sentinel/engine/memory_scanner.py, with Patterns (`SHELLCODE_PATTERNS`), Region (the
--   checks of a region and `to_signal`), Managed (`_is_managed_process`), Loops (over the regions of a
--   process on each platform) and Scan (`scan_process` and `scan_all_processes`).
-- Scanner: sentinel/engine/scanner.py, with Sample (the constants, a file and a detection), Program (the
--   layers over the name and the features of a program), File (`scan_file`, layer by layer), Control
--   (`cancel`, `pause`, `resume`), Scan (`execute_scan`), ReadOnly (its calls of `scan_file`) and Targets
--   (`_collect_files`). It uses the store of Quarantine, the client of VirusTotal, the features of
--   StaticClassifier and the report of Sandbox.
-- Quarantine: `QuarantineStore` of sentinel/response/quarantine_store.py.
-- Builtins: Python's conversions, as a record of functions that nothing is assumed of.
-- Prelude, Dict, Result: tests, lists, texts, dicts and sets in insertion order, and exceptions.
-- Examples: concrete values on which the theorems apply.
--
-- A method becomes a function from the state to the new state and the result; the locks of the
-- program make each method one step. A method that raises keeps what it had stored before. Scores
-- and weights are whole points, times are milliseconds, other fractions are ten-thousandths, and
-- none of these are negative; a comparison `t >= now - ttl` is written `now ≤ t + ttl`. Texts are
-- lists of code points. The texts of reasons are left out but for those of the sandbox, whose words its
-- verdict reads, and so is all logging. The parser of conditions takes the number of tokens as the
-- bound of its depth, and a loop the number of tokens that it starts with: each parenthesis and each
-- round of a loop takes a token away.
--
-- The quarantine works on a table of rows and on files under their resolved paths. Which accesses
-- the system refuses is a parameter, which for a removal may depend on the file as it is, and so is the
-- kernel bridge, which is told of a restored path. Whether the directory of an isolated run withstands
-- its removal is a parameter as well.
-- The ransomware heuristic takes what the canary manager says of a path as given. The readings of
-- psutil are given as data.
--
-- The driver's port, the Windows calls on processes, and the signature check are parameters. A ctypes
-- function whose result is an HRESULT raises OSError on a failure, as ctypes documents; the model
-- writes that out. A response works on the bridge that the quarantine store holds, as the consumer
-- sets it. A sleep lasts at least as long as asked, and by how much longer is a parameter; the time
-- that an answer of VirusTotal takes is left out. The loop of the token bucket runs on fuel: each
-- round that sleeps a quarter of a second uses up its timeout, so that the timeout in quarters of a
-- second and three more rounds are enough, and a theorem says so.
--
-- The memory of the emulator has addresses that are not negative. Its loops run on as much fuel as
-- there are bytes, since each round moves a byte or more. The loop over the regions of a process runs on
-- fuel as well: it asks for the region at an address and goes on behind it, so that as much fuel as
-- there are addresses below 0x7FFFFFFF0000 is enough if each region reaches beyond the address that was
-- asked for, and a theorem says so.
--
-- A scan of files is a list of moves: its own steps, each up to the next place where it looks at the
-- flags of its control, and calls of `cancel`, `pause` and `resume` between them. What a file's scan
-- works on is a parameter of the scan. The folders do not change while they are walked. The scan of one
-- file takes what YARA, the model, the signature check and the emulator answer as functions.
--
-- Not modelled: the sensors, the user interface, the service and its pipes, the isolation of the
-- sandbox and its asynchronous launchers, and the models of the classifier, which are input, output or
-- third-party code for the most part; the interpreter of the emulator, whose result is a parameter of
-- Scanner; the pool of workers that `execute_scan` has if it is asked for more than one, and the preset
-- targets of the quick and the full scan. The consumer's step over an event takes what the static
-- classifier finds, and whether a response raises, as given; its loop over the items of the bus makes no
-- periodic check, which is a function of its own.
pub mod Prelude
pub mod Dict
pub mod Result
pub mod Schema
pub mod Scoring
pub mod Bus
pub mod Builtins
pub mod Heuristics
pub mod Rules
pub mod Quarantine
pub mod Examples
pub mod Consumer
pub mod Watchdog
pub mod VirusTotal
pub mod Authenticode
pub mod Kernel
pub mod Responder
pub mod Canary
pub mod Sandbox
pub mod MemoryScanner
pub mod Scanner
pub mod StaticClassifier
