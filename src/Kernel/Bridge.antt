-- ===== src/Kernel/Bridge.antt =====
-- `KernelBridge` of sentinel/kernel/bridge.py. The driver port, the conversion to device paths and
-- the signature check are given. The polling of events is left out.
pub mod Hashes
pub mod Laws
pub mod Runs
use sentinel_antivirus.Prelude.{
  ℕ, ◌-◌, ◌^◌, Bool, true, false, ◌&&◌, ◌||◌, not, Option, none, some, ◌++◌, map, leb,
  if◌then◌else◌, ◌==◌, nat_eq, is_empty, Text, codes, text_eq, first,
}
use sentinel_antivirus.Dict.{Dict, lookup, has_key, insert, erase}
use mathlib.Core.Option
use sentinel_antivirus.Result.{◌>>=◌, Result, ok, err}
use sentinel_antivirus.Result.{os_error}
use sentinel_antivirus.Schema.{Extra}
use sentinel_antivirus.Authenticode.{Signature, is_authentic}
use sentinel_antivirus.Kernel.Blocklist.{
  Tools, Contents, HashBlocklist, add_hash, remove_hash, is_blocked,
}

-- `MSG_ADD_BLOCK` and `MSG_REMOVE_BLOCK`
pub data Command : Type 0 where
  add_path remove_path : Command

-- `SENTINEL_MAX_PATH`
abbrev pub max_path : ℕ
max_path = 520

-- An HRESULT as an unsigned number of 32 bits. As the result type of a ctypes function, it raises
-- OSError where its top bit is set.
unfoldable pub check_hresult : ℕ → Result ℕ
check_hresult hr = if leb (2 ^ 31) hr then err os_error else ok hr

-- The system under the bridge: the port with the HRESULTs of connections, if fltlib is there, and
-- of messages, `dos_to_nt_path`, and `verify_pe_signature`, which is `none` where it raises.
pub record Driver (Port : Type 0) : Type 0 where
  pub tools : Tools
  pub filter_connect : Port → Option ℕ × Port
  pub close_handle : Port → Port
  pub filter_send_message : Command → Text → Port → ℕ × Port
  pub dos_to_nt_path : Text → Text
  pub verify_signature : Contents → Text → Option Signature

-- `KernelBridge`; `connected` says also that there is a handle.
pub record KernelBridge (Port : Type 0) : Type 0 where
  pub port : Port
  pub connected : Bool
  pub blocked_paths : Dict Text Text
  pub hash_blocklist : HashBlocklist

-- The test of `add_block` for a binary that it refuses to block
abbrev pub is_protected : Option Signature → Bool → Bool
is_protected none force = false
is_protected (some sig) force = is_authentic sig && not force

module _ {Port : Type 0} (os : Driver Port) where
  -- `connect`, with `_raw_connect`
  unfoldable pub connect : KernelBridge Port → Result Bool × KernelBridge Port
  connect b =
      let (opened, port) = os.filter_connect b.port in
      if b.connected then (ok true, b) else elim opened [
        | none ↦ (ok false, b)
        | some status ↦ elim (check_hresult status) [
          | err e ↦ (err e, record b { port = port })
          | ok hr ↦ (ok (hr == 0), record b { port = port; connected = (hr == 0) })
        ]
      ]

  -- `disconnect`
  unfoldable pub disconnect : KernelBridge Port → KernelBridge Port
  disconnect b =
      if b.connected then record b { port = os.close_handle b.port; connected = false } else b

  -- `_send_command`
  unfoldable pub send_command : Command → Text → KernelBridge Port → Result Bool × KernelBridge Port
  send_command cmd path b =
      let (status, port) = os.filter_send_message cmd (first (max_path - 1) path) b.port in
      ((do hr ← check_hresult status; ok (hr == 0)), record b { port = port })

  abbrev register : Contents → ℕ → Text → KernelBridge Port → KernelBridge Port
  register files now path b = record b {
    hash_blocklist =
        (add_hash os.tools files now path (codes "kernel_block") none b.hash_blocklist).1;
  }

  -- `add_block`
  unfoldable pub add_block :
      Contents → ℕ → Text → Bool → KernelBridge Port → Result Bool × KernelBridge Port
  add_block files now path force b =
      let b1 = register files now path b in
      let nt = os.dos_to_nt_path path in
      let paths = insert nt nt (insert path nt b.blocked_paths) in
      if is_protected (os.verify_signature files path) force
      then (ok false, b)
      else if not b.connected
      then (ok false, b1)
      else send_command add_path nt (record b1 { blocked_paths = paths })

  -- `self._blocked_paths.pop(path, None)`, or else the conversion
  abbrev pub nt_path_of : Text → KernelBridge Port → Text
  nt_path_of path b = elim (lookup path b.blocked_paths) [
    | none ↦ os.dos_to_nt_path path
    | some nt ↦ if is_empty nt then os.dos_to_nt_path path else nt
  ]

  -- The commands of `remove_block`; an error of one is an error of the whole.
  unfoldable pub remove_commands : Text → Text → KernelBridge Port → Result Bool × KernelBridge Port
  remove_commands path nt b =
      let (first_sent, b1) = send_command remove_path nt b in
      let (second_sent, b2) = send_command remove_path path b1 in
      elim first_sent [
        | err e ↦ (err e, b1)
        | ok sent ↦ if nt == path then (ok sent, b1) else ((do _ ← second_sent; ok sent), b2)
      ]

  -- `remove_block`
  unfoldable pub remove_block :
      Contents → Text → KernelBridge Port → Result Bool × KernelBridge Port
  remove_block files path b =
      let b1 = record b { hash_blocklist = (remove_hash os.tools files path b.hash_blocklist).1 } in
      let nt = nt_path_of path b in
      let b2 = record b1 { blocked_paths = erase nt (erase path b.blocked_paths) } in
      if b.connected then remove_commands path nt b2 else (ok false, b1)

  -- `check_file_blocked`: the reason that is found, or `none` for a clean file
  unfoldable pub check_file_blocked : Contents → Text → KernelBridge Port → Option Text
  check_file_blocked files path b =
      if has_key path b.blocked_paths || has_key (os.dos_to_nt_path path) b.blocked_paths
      then some (codes "driver_path")
      else Option.map (λ r. codes "hash_blocklist:" ++ r.reason)
          (is_blocked os.tools files path b.hash_blocklist)

  -- `add_hash_block` and `remove_hash_block`
  unfoldable pub add_hash_block :
      Contents
      → ℕ
      → Text
      → Text
      → Option Extra
      → KernelBridge Port
      → Option Text × KernelBridge Port
  add_hash_block files now identifier reason metadata b =
      let (sha, l) = add_hash os.tools files now identifier reason metadata b.hash_blocklist in
      (sha, record b { hash_blocklist = l })

  unfoldable pub remove_hash_block : Contents → Text → KernelBridge Port → Bool × KernelBridge Port
  remove_hash_block files identifier b =
      let (removed, l) = remove_hash os.tools files identifier b.hash_blocklist in
      (removed, record b { hash_blocklist = l })
