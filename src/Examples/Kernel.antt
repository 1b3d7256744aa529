-- ===== src/Examples/Kernel.antt =====
-- A bridge over a driver that answers every message, and its blocked paths.
use sentinel_antivirus.Prelude.{
  ℕ, ◌+◌, ◌≡◌, refl, true, false, ◌&&◌, ◌||◌, not, Option, none, some, [], if◌then◌else◌, ◌==◌,
  nat_eq, pair_eq, is_some, Text, codes, text_eq,
}
use sentinel_antivirus.Dict.{has_key}
use sentinel_antivirus.Authenticode.{Signature}
use sentinel_antivirus.Kernel.Blocklist.{Tools, Contents}
use sentinel_antivirus.Kernel.Bridge.{
  Driver, KernelBridge, connect, add_block, remove_block, check_file_blocked,
}
use sentinel_antivirus.Kernel.Bridge.Runs.{
  Reachable, new, after, connects, adds, remove_block-check_file_blocked,
}
use sentinel_antivirus.Examples.{plain_python}

abbrev pub tools : Tools
tools = record { py = plain_python; sha256_hex = λ b. b }

-- A file whose name ends in m has a signature of Microsoft's.
abbrev signature_of : Option Text → Option Signature
signature_of none =
    some (record { is_signed = false; is_valid = false; is_trusted = false; is_microsoft = false })
signature_of (some bytes) = some (record {
  is_signed = true;
  is_valid = true;
  is_trusted = true;
  is_microsoft = bytes == codes "ms";
})

-- The port counts the messages; a connection gets the given status, and every path is a device
-- path.
abbrev pub driver : ℕ → Driver ℕ
driver status = record {
  tools = tools;
  filter_connect = λ p. (some status, p);
  close_handle = λ p. p;
  filter_send_message = λ c t p. (0, p + 1);
  dos_to_nt_path = λ p. p;
  verify_signature = λ files path. signature_of (files path);
}

abbrev pub start : KernelBridge ℕ
start = record {
  port = 0;
  connected = false;
  blocked_paths = [];
  hash_blocklist = record { blocks = [] };
}

-- The one file is at x.
abbrev files : Contents
files path = if path == codes "x" then some (codes "MZ") else none

abbrev blocked : KernelBridge ℕ
blocked = (add_block (driver 0) files 1 (codes "x") false (connect (driver 0) start).1).1

blocked-Reachable : Reachable (driver 0) blocked
blocked-Reachable = after (after (new 0) connects) (adds files 1 (codes "x") false)

remove_block-check_file_blocked_example :
    is_some (
      check_file_blocked
        (driver 0)
        files
        (codes "x")
        (remove_block (driver 0) files (codes "x") blocked).1)
    ≡ (not blocked.connected
        && (has_key (codes "x") blocked.blocked_paths || has_key (codes "x") blocked.blocked_paths))
remove_block-check_file_blocked_example =
    remove_block-check_file_blocked (driver 0) files (codes "x") (λ p. refl) blocked-Reachable

-- The driver refuses the command, with ERROR_ACCESS_DENIED: the path counts as blocked
-- nevertheless.
abbrev access_denied : ℕ
access_denied = 2147942405

abbrev refusing : Driver ℕ
refusing = record (driver 0) { filter_send_message = λ c t p. (access_denied, p + 1) }

abbrev connected : KernelBridge ℕ
connected = record start { connected = true }
