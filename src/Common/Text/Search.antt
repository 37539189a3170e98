-- ===== src/Common/Text/Search.antt =====
-- `contains` finds a needle exactly when the text can be cut around it.
use mathlib.Core.Path.{◌≡◌, refl, ap}
use mathlib.Core.Logic.{inl, inr}
use mathlib.Core.Bool.{true}
use mathlib.Core.List.{[], ◌∷◌, ◌++◌}
use native.Mathlib.Omega.{arith}
use xend.Common.Tests.{Bool-cases}
use xend.Common.Text.{Text, starts_with, contains}

starts_with-append : (p s : Text) → starts_with p (p ++ s) ≡ true
unfolding starts_with
starts_with-append [] s = refl
starts_with-append (c ∷ p) s = ground (arith, starts_with-append p s)

starts_with-eq-true : (p s : Text) → starts_with p s ≡ true → (rest : Text) × (s ≡ p ++ rest)
unfolding starts_with
starts_with-eq-true [] s h = (s, refl)
starts_with-eq-true (c ∷ p) [] h = cc
starts_with-eq-true (c ∷ p) (d ∷ s) h =
    let (rest, e) = starts_with-eq-true p s (ground arith) in (rest, ground arith)

pub contains_around : (before p after : Text) → contains p (before ++ (p ++ after)) ≡ true
unfolding contains starts_with
contains_around [] [] [] = refl
contains_around [] [] (d ∷ after) = refl
contains_around [] (c ∷ p) after = rw (starts_with-append (c ∷ p) after)
contains_around (d ∷ before) p after = ground (arith, contains_around before p after)

pub contains-eq-true :
    (p s : Text) → contains p s ≡ true → (before after : Text) × (s ≡ before ++ (p ++ after))
unfolding contains
contains-eq-true [] [] h = ([], [], refl)
contains-eq-true (c ∷ p) [] h = cc
contains-eq-true p (d ∷ s) h = elim (Bool-cases (starts_with p (d ∷ s))) [
  | inl here ↦ let (after, e) = starts_with-eq-true p (d ∷ s) here in ([], after, e)
  | inr further ↦
      let (before, after, e) = contains-eq-true p s (ground arith) in
      (d ∷ before, after, ap (λ t. d ∷ t) e)
]
