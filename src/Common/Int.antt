-- ===== src/Common/Int.antt =====
-- Signed integers (`i64`), as far as the program uses them: a literal and `Ord::clamp`.
use Prim.Native.Nat.{ℕ}
use mathlib.Core.Bool.{Bool, true, false}
use xend.Common.Tests.{leb, if◌then◌else◌}

-- `negsuc n` is -(n + 1).
pub data ℤ : Type 0 where
  pos : ℕ → ℤ
  negsuc : ℕ → ℤ

abbrev pub leb_ℤ : ℤ → ℤ → Bool
leb_ℤ (pos a) (pos b) = leb a b
leb_ℤ (pos a) (negsuc b) = false
leb_ℤ (negsuc a) (pos b) = true
leb_ℤ (negsuc a) (negsuc b) = leb b a

-- `Ord::clamp`: the lower bound if below it, the upper one if above it.
abbrev pub clamp : ℤ → ℤ → ℤ → ℤ
clamp x lo hi = if leb_ℤ lo x then (if leb_ℤ x hi then x else hi) else lo
