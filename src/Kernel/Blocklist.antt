-- ===== src/Kernel/Blocklist.antt =====
-- `HashBlocklist` of sentinel/kernel/bridge.py. The digest of bytes, and what a path holds, are
-- given.
use sentinel_antivirus.Prelude.{
  ℕ, Bool, true, false, ◌&&◌, ◌||◌, Option, none, some, List, [], leb, if◌then◌else◌, ◌==◌, nat_eq,
  pair_eq, length, all_of, is_empty, Text, text_eq,
}
use sentinel_antivirus.Dict.{Dict, values, lookup, has_key, insert, erase}
use mathlib.Core.Option
use sentinel_antivirus.Builtins.{Python}
use sentinel_antivirus.Schema.{Extra}

-- A record of `_blocks`
pub record BlockedHash : Type 0 where
  pub hash : Text
  pub timestamp : ℕ
  pub reason : Text
  pub metadata : Extra

-- `HashBlocklist`
pub record HashBlocklist : Type 0 where
  pub blocks : Dict Text BlockedHash

-- What Python and hashlib give to the blocklist: text operations, and
-- `sha256(...).hexdigest().lower()`
pub record Tools : Type 0 where
  pub py : Python
  pub sha256_hex : Text → Text

-- What paths hold: the bytes of a file that can be read
abbrev pub Contents : Type 0
Contents = Text → Option Text

abbrev pub is_hex : ℕ → Bool
is_hex c = (leb b'0' c && leb c b'9') || (leb b'a' c && leb c b'f')

-- `compute_sha256` of bytes, and of a path
abbrev pub sha256_of_path : Tools → Contents → Text → Option Text
sha256_of_path os files path = Option.map os.sha256_hex (files path)

abbrev pub is_sha256 : Text → Bool
is_sha256 s = length s == 64 && all_of is_hex s

-- `if sha`
abbrev pub if_any_text : Option Text → Option Text
if_any_text none = none
if_any_text (some sha) = if is_empty sha then none else some sha

-- The hash that an identifier, a hash or a path, stands for
unfoldable pub identify : Tools → Contents → Text → Option Text
identify os files identifier =
    let clean = os.py.lower (os.py.strip identifier) in
    if_any_text (if is_sha256 clean then some clean else sha256_of_path os files identifier)

-- `metadata or {}`
abbrev pub or_none : Option Extra → Extra
or_none none = []
or_none (some x) = x

-- `add_hash`
unfoldable pub add_hash :
    Tools → Contents → ℕ → Text → Text → Option Extra → HashBlocklist → Option Text × HashBlocklist
add_hash os files now identifier reason metadata l = elim (identify os files identifier) [
  | none ↦ (none, l)
  | some sha ↦
      let entry : BlockedHash = record {
        hash = sha;
        timestamp = now;
        reason = reason;
        metadata = or_none metadata;
      } in
      (some sha, record l { blocks = insert sha entry l.blocks })
]

-- `remove_hash`
unfoldable pub remove_hash : Tools → Contents → Text → HashBlocklist → Bool × HashBlocklist
remove_hash os files identifier l = elim (identify os files identifier) [
  | none ↦ (false, l)
  | some sha ↦
      if has_key sha l.blocks then (true, record l { blocks = erase sha l.blocks }) else (false, l)
]

-- The record of a hash, where it is blocked
abbrev pub find_hash : Option Text → HashBlocklist → Option BlockedHash
find_hash none l = none
find_hash (some sha) l = lookup sha l.blocks

-- `is_blocked` of a hash or a path, and of bytes
unfoldable pub is_blocked : Tools → Contents → Text → HashBlocklist → Option BlockedHash
is_blocked os files identifier l = find_hash (identify os files identifier) l

unfoldable pub is_blocked_bytes : Tools → Text → HashBlocklist → Option BlockedHash
is_blocked_bytes os bytes l = find_hash (if_any_text (some (os.sha256_hex bytes))) l

-- `get_blocked_hashes`, `__len__` and `clear`
abbrev pub get_blocked_hashes : HashBlocklist → List BlockedHash
get_blocked_hashes l = values l.blocks

abbrev pub len : HashBlocklist → ℕ
len l = length l.blocks

abbrev pub clear : HashBlocklist → HashBlocklist
clear l = record l { blocks = [] }
