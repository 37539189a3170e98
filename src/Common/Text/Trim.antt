-- ===== src/Common/Text/Trim.antt =====
-- `trim` and blanks.
use Prim.Native.Nat.{ℕ, zero, suc}
use mathlib.Core.Path.{◌≡◌, refl, ap, ◌∙◌}
use mathlib.Core.Bool.{false}
use mathlib.Core.List.{[], ◌∷◌, ◌++◌}
use mathlib.Core.Logic.{inl, inr}
use native.Mathlib.Omega.{arith}
use xend.Common.Lists.{replicate}
use xend.Common.Tests.{Bool-cases}
use xend.Common.Text.{Text, trim, trim_start, trim_end, is_whitespace, unless_blank}

-- Spaces in front of a text do not change what `trim` returns.
pub trim-spaces : (n : ℕ) (s : Text) → trim (replicate n 32 ++ s) ≡ trim s
unfolding trim
trim-spaces zero s = refl
trim-spaces (suc n) s = trim-spaces n s

-- Nothing to trim at the start.
abbrev StartsClean : Text → Type 0
StartsClean [] = Unit
StartsClean (c ∷ s) = is_whitespace c ≡ false

trim_start-StartsClean : (s : Text) → StartsClean (trim_start s)
unfolding trim_start
trim_start-StartsClean [] = tt
trim_start-StartsClean (c ∷ s) = elim (Bool-cases (is_whitespace c)) [
  | inl blank ↦ rw blank (trim_start-StartsClean s)
  | inr other ↦ rw other other
]

trim_start_of_StartsClean : (s : Text) → StartsClean s → trim_start s ≡ s
unfolding trim_start
trim_start_of_StartsClean [] h = refl
trim_start_of_StartsClean (c ∷ s) h = rw h

unless_blank-StartsClean :
    (c : ℕ) (s : Text) → is_whitespace c ≡ false → StartsClean (unless_blank c s)
unless_blank-StartsClean c [] h = rw h h
unless_blank-StartsClean c (d ∷ s) h = h

trim_end-StartsClean : (s : Text) → StartsClean s → StartsClean (trim_end s)
unfolding trim_end
trim_end-StartsClean [] h = tt
trim_end-StartsClean (c ∷ s) h = unless_blank-StartsClean c (trim_end s) h

trim_end-unless_blank :
    (c : ℕ) (s : Text) → trim_end s ≡ s → trim_end (unless_blank c s) ≡ unless_blank c s
unfolding trim_end
trim_end-unless_blank c [] h = ground arith
trim_end-unless_blank c (d ∷ s) h = ap (unless_blank c) h

trim_end_idem : (s : Text) → trim_end (trim_end s) ≡ trim_end s
unfolding trim_end
trim_end_idem [] = refl
trim_end_idem (c ∷ s) = trim_end-unless_blank c (trim_end s) (trim_end_idem s)

-- A trimmed text is trimmed.
pub trim_idem : (s : Text) → trim (trim s) ≡ trim s
trim_idem s =
    unfold trim in
    ap trim_end
      (trim_start_of_StartsClean _ (trim_end-StartsClean (trim_start s) (trim_start-StartsClean s)))
    ∙ trim_end_idem (trim_start s)
