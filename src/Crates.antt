-- ===== src/Crates.antt =====
-- Third-party crates that the handlers call: `base64` (its standard alphabet), `bs58` and `chrono`.
use xend.Common.{ℕ, Option, some, All, ◌≡◌}
use xend.Common.Text.{Text}
use xend.Common.Bytes.{Bytes, IsByte}

pub record Base64 : Type 0 where
  pub encode : Bytes → Text
  pub decode : Text → Option Bytes

-- Decoding reads back what encoding wrote.
abbrev pub DecodesEncoded : Base64 → Type 0
DecodesEncoded c = (b : Bytes) → All IsByte b → c.decode (c.encode b) ≡ some b

pub record Base58 : Type 0 where
  pub decode : Text → Option Bytes

-- `DateTime::parse_from_rfc3339`, in microseconds since the epoch.
pub record Rfc3339 : Type 0 where
  pub parse : Text → Option ℕ
