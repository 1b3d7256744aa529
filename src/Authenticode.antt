-- ===== src/Authenticode.antt =====
-- `AuthenticodeVerdict` of sentinel/engine/authenticode.py, the answer of the signature check. The
-- check is the Windows API's.
use sentinel_antivirus.Prelude.{Bool, ◌&&◌}

pub record Signature : Type 0 where
  pub is_signed : Bool
  pub is_valid : Bool
  pub is_trusted : Bool
  pub is_microsoft : Bool

-- The test for Microsoft's own binaries, as the callers write it
abbrev pub is_authentic : Signature → Bool
is_authentic s = (s.is_signed && s.is_valid) && s.is_microsoft
