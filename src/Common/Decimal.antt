-- ===== src/Common/Decimal.antt =====
-- Decimal numbers of Rust's standard library: `str::parse::<u128>` and `to_string`.
use Prim.Native.Nat.{ℕ, zero, suc, ◌+◌, ◌-◌, ◌*◌, ◌/◌, ◌%◌, ◌^◌, ◌≤◌, ◌<◌}
use mathlib.Core.Path.{◌≡◌, refl, sym, ap, ◌∙◌}
use mathlib.Core.Bool.{Bool, ◌&&◌}
use mathlib.Core.Logic.{inl, inr}
use mathlib.Core.Option.{Option, none, some}
use mathlib.Core.List.{[], ◌∷◌, ◌++◌, append_assoc, append-nil}
use native.Mathlib.Omega.{arith}
use native.Mathlib.Nat.{le-add_right}
use xend.Common.Tests.{leb, ltb, ◌==◌, if◌then◌else◌, Bool-cases}
use xend.Common.Text.{Text}

abbrev pub u128_limit : ℕ
u128_limit = 2 ^ 128

abbrev pub is_digit : ℕ → Bool
is_digit c = leb 48 c && leb c 57

-- The digits are read with `checked_mul` and `checked_add`, so a number past the limit is an error.
unfoldable pub parse_digits : ℕ → Text → Option ℕ
parse_digits acc [] = some acc
parse_digits acc (c ∷ s) =
    let value = acc * 10 + (c - 48) in
    let rest = parse_digits value s in if is_digit c && ltb value u128_limit then rest else none

-- One leading `+` is taken; a sign alone, an empty text, and any other character are errors.
unfoldable pub parse_u128 : Text → Option ℕ
unfolding parse_digits
parse_u128 [] = none
parse_u128 (c ∷ []) = parse_digits 0 (c ∷ [])
parse_u128 (c ∷ d ∷ s) = if c == b'+' then parse_digits 0 (d ∷ s) else parse_digits 0 (c ∷ d ∷ s)

-- `to_string`; a number has fewer digits than its value, so the fuel is enough.
unfoldable pub show_fuel : ℕ → ℕ → Text
show_fuel zero n = []
show_fuel (suc fuel) n =
    let front = show_fuel fuel (n / 10) in
    if ltb n 10 then (48 + n) ∷ [] else front ++ (48 + n % 10) ∷ []

unfoldable pub to_string : ℕ → Text
unfolding show_fuel
to_string n = show_fuel (suc n) n

pub parse_digits-lt :
    (acc : ℕ) (s : Text) (n : ℕ) → acc < u128_limit → parse_digits acc s ≡ some n → n < u128_limit
unfolding parse_digits
parse_digits-lt acc [] n h e = ground arith
parse_digits-lt acc (c ∷ s) n h e = ground (arith, parse_digits-lt (acc * 10 + (c - 48)) s n)

-- What `parse` accepts fits the type.
pub parse_u128-lt : (s : Text) (n : ℕ) → parse_u128 s ≡ some n → n < u128_limit
unfolding parse_u128
parse_u128-lt [] n e = cc
parse_u128-lt (c ∷ []) n e = parse_digits-lt 0 (c ∷ []) n (omega arith) e
parse_u128-lt (c ∷ d ∷ s) n e =
    ground (arith, parse_digits-lt 0 (d ∷ s) n, parse_digits-lt 0 (c ∷ d ∷ s) n)

parse_digits-nil : (n : ℕ) → parse_digits n [] ≡ some n
unfolding parse_digits
parse_digits-nil n = refl

parse_digits_step :
    (n : ℕ) (rest : Text)
    → n < u128_limit
    → parse_digits (n / 10) ((48 + n % 10) ∷ rest) ≡ parse_digits n rest
unfolding parse_digits
parse_digits_step n rest h =
    let e : n / 10 * 10 + (48 + n % 10 - 48) ≡ n = omega arith in rw e (ground arith)

parse_digits_one :
    (n : ℕ) (rest : Text) → n < 10 → parse_digits 0 ((48 + n) ∷ rest) ≡ parse_digits n rest
unfolding parse_digits
parse_digits_one n rest h = let e : 0 * 10 + (48 + n - 48) ≡ n = omega arith in rw e (ground arith)

parse_digits-show :
    (fuel n : ℕ) (rest : Text)
    → n < fuel
    → n < u128_limit
    → parse_digits 0 (show_fuel fuel n ++ rest) ≡ parse_digits n rest
unfolding show_fuel
parse_digits-show zero n rest h k = absurd (omega arith)
parse_digits-show (suc fuel) n rest h k = elim (Bool-cases (ltb n 10)) [
  | inl small ↦ rw small (parse_digits_one n rest (ground arith))
  | inr large ↦
      rw (large, append_assoc)
        (parse_digits-show fuel (n / 10) ((48 + n % 10) ∷ rest) (ground arith) (omega arith)
          ∙ parse_digits_step n rest k)
]

abbrev StartsWithDigit : Text → Type 0
StartsWithDigit [] = ⊥
StartsWithDigit (c ∷ s) = 48 ≤ c

StartsWithDigit-append : (s t : Text) → StartsWithDigit s → StartsWithDigit (s ++ t)
StartsWithDigit-append (c ∷ s) t h = h
StartsWithDigit-append [] t h = absurd h

show_fuel-StartsWithDigit : (fuel n : ℕ) → n < fuel → StartsWithDigit (show_fuel fuel n)
unfolding show_fuel
show_fuel-StartsWithDigit zero n h = absurd (omega arith)
show_fuel-StartsWithDigit (suc fuel) n h = elim (Bool-cases (ltb n 10)) [
  | inl small ↦ rw small (le-add_right 48 n)
  | inr large ↦ rw large (
      StartsWithDigit-append _ ((48 + n % 10) ∷ [])
        (show_fuel-StartsWithDigit fuel (n / 10) (ground arith)))
]

parse_u128_unsigned : (s : Text) → StartsWithDigit s → parse_u128 s ≡ parse_digits 0 s
unfolding parse_u128
parse_u128_unsigned [] h = absurd h
parse_u128_unsigned (c ∷ []) h = refl
parse_u128_unsigned (c ∷ d ∷ s) h = ground arith

-- `parse` reads back what `to_string` prints.
pub parse_u128-to_string : (n : ℕ) → n < u128_limit → parse_u128 (to_string n) ≡ some n
unfolding to_string
parse_u128-to_string n h =
    parse_u128_unsigned _ (show_fuel-StartsWithDigit (suc n) n (omega arith))
    ∙ ap (parse_digits 0) (sym (append-nil (show_fuel (suc n) n)))
    ∙ parse_digits-show (suc n) n [] (omega arith) h
    ∙ parse_digits-nil n
