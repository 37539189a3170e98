-- ===== src/Common/Text/Affix.antt =====
-- `strip_prefix` and `strip_suffix` undo an append, and nothing else.
use Prim.Native.Nat.{ℕ}
use mathlib.Core.Path.{◌≡◌, refl, ap}
use mathlib.Core.Logic.{◌≢◌, inl, inr}
use mathlib.Core.Option.{some}
use mathlib.Core.List.{[], ◌∷◌, ◌++◌}
use native.Mathlib.Omega.{arith}
use xend.Common.Lists.{length, length-append}
use xend.Common.Tests.{Bool-cases, Option-cases}
use xend.Common.Text.{Text, text_eq, text_eq_iff, text_eq_refl, strip_prefix, strip_suffix}

pub strip_prefix-append : (p s : Text) → strip_prefix p (p ++ s) ≡ some s
unfolding strip_prefix
strip_prefix-append [] s = refl
strip_prefix-append (c ∷ p) s = ground (arith, strip_prefix-append p s)

pub strip_prefix-eq-some : (p s rest : Text) → strip_prefix p s ≡ some rest → s ≡ p ++ rest
unfolding strip_prefix
strip_prefix-eq-some [] s rest h = ground arith
strip_prefix-eq-some (c ∷ p) [] rest h = cc
strip_prefix-eq-some (c ∷ p) (d ∷ s) rest h = ground (arith, strip_prefix-eq-some p s rest)

pub strip_suffix-eq-some : (p s rest : Text) → strip_suffix p s ≡ some rest → s ≡ rest ++ p
unfolding strip_suffix
strip_suffix-eq-some [] [] rest h = ground arith
strip_suffix-eq-some (c ∷ p) [] rest h = cc
strip_suffix-eq-some p (d ∷ s) rest h = elim (Bool-cases (text_eq p (d ∷ s))) [
  | inl same ↦ ground (arith, text_eq_iff p (d ∷ s))
  | inr other ↦ elim (Option-cases (strip_suffix p s)) [
    | inl missing ↦ ground arith
    | inr (front, found) ↦ ground (arith, strip_suffix-eq-some p s front found)
  ]
]

longer : (c : ℕ) (s p : Text) → p ≢ c ∷ (s ++ p)
longer c s p e = omega (arith, ap length e, length-append {0} s p)

pub strip_suffix-append : (p s : Text) → strip_suffix p (s ++ p) ≡ some s
unfolding strip_suffix
strip_suffix-append [] [] = refl
strip_suffix-append (c ∷ p) [] = rw (text_eq_refl (c ∷ p))
strip_suffix-append p (d ∷ s) =
    ground (arith, text_eq_iff p (d ∷ (s ++ p)), longer d s p, strip_suffix-append p s)
