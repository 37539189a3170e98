-- ===== src/Runtime/Program/Turns.antt =====
-- How many turns a program needs.
use xend.Common.{
  ℕ, zero, suc, ◌+◌, ◌-◌, ◌≤◌, ◌<◌, ◌≡◌, refl, sym, List, [], ◌∷◌, Option, none, some, Result, ok,
  err, arith, ◌==◌, if◌then◌else◌, length, get_elem?,
}
use mathlib.Core.Path.{subst}
use xend.Error.{AppError}
use xend.Runtime.{World}
use xend.Runtime.Program.Shared.{AllAnswered}
use xend.Runtime.Program.{
  Program, ret, fail, await, advance, resume_with, turn, interleave, outcome_of,
}

-- At most `n` awaits, whatever they return.
abbrev pub EndsWithin : {A : Type 0} → Program A → ℕ → Type 0
EndsWithin (ret a) n = Unit
EndsWithin (fail e) n = Unit
EndsWithin (await m k) zero = ⊥
EndsWithin (await {B} m k) (suc n) = (b : B) → EndsWithin (k b) n

-- How often it is a program's turn.
abbrev pub turns_of : ℕ → List ℕ → ℕ
turns_of i [] = 0
turns_of i (j ∷ js) = (if j == i then 1 else 0) + turns_of i js

-- The result of the program with the given number, if there is one and it has ended.
abbrev pub outcome_at : {A : Type 0} → ℕ → List (Program A) → Option (Result A AppError)
outcome_at i [] = none
outcome_at zero (p ∷ ps) = outcome_of p
outcome_at (suc i) (p ∷ ps) = outcome_at i ps

abbrev pub AllEndWithin : {A : Type 0} → ℕ → List (Program A) → Type 0
AllEndWithin n [] = Unit
AllEndWithin n (p ∷ ps) = EndsWithin p n × AllEndWithin n ps

abbrev pub EndsAt : {A : Type 0} → ℕ → ℕ → List (Program A) → Type 0
EndsAt n i [] = ⊥
EndsAt n zero (p ∷ ps) = EndsWithin p n
EndsAt n (suc i) (p ∷ ps) = EndsAt n i ps

one_less : (n : ℕ) → suc n - 1 ≡ n
one_less n = omega arith

module _ {A : Type 0} where
  resume-EndsWithin :
      {B : Type 0} (n : ℕ) (k : B → Program A) (r : Result B AppError)
      → ((b : B) → EndsWithin (k b) n)
      → EndsWithin (resume_with k r) n
  resume-EndsWithin n k (ok b) h = h b
  resume-EndsWithin n k (err e) h = tt

  advance-EndsWithin :
      (n : ℕ) (p : Program A) (w : World) → EndsWithin p n → EndsWithin (advance p w).0 (n - 1)
  unfolding advance
  advance-EndsWithin n (ret a) w h = tt
  advance-EndsWithin n (fail e) w h = tt
  advance-EndsWithin zero (await m k) w h = absurd h
  advance-EndsWithin (suc n) (await m k) w h = rw one_less (resume-EndsWithin n k (m w).0 h)

  pub turn-EndsAt :
      (n i j : ℕ) (ps : List (Program A)) (w : World)
      → EndsAt n i ps
      → EndsAt (n - (if j == i then 1 else 0)) i (turn j ps w).0
  unfolding turn
  turn-EndsAt n i j [] w h = absurd h
  turn-EndsAt n zero zero (p ∷ ps) w h = advance-EndsWithin n p w h
  turn-EndsAt n zero (suc j) (p ∷ ps) w h = rw (same n j) h
    where
      same : (n j : ℕ) → n - (if suc j == zero then 1 else 0) ≡ n
      same n j = ground arith
  turn-EndsAt n (suc i) zero (p ∷ ps) w h = subst (λ k. EndsAt k i ps) (sym (same n i)) h
    where
      same : (n i : ℕ) → n - (if zero == suc i then 1 else 0) ≡ n
      same n i = ground arith
  turn-EndsAt n (suc i) (suc j) (p ∷ ps) w h = rw (same n i j) (turn-EndsAt n i j ps w h)
    where
      same : (n i j : ℕ) → n - (if suc j == suc i then 1 else 0) ≡ n - (if j == i then 1 else 0)
      same n i j = ground arith

  interleave-EndsAt :
      (n i : ℕ) (js : List ℕ) (ps : List (Program A)) (w : World)
      → EndsAt n i ps
      → EndsAt (n - turns_of i js) i (interleave js ps w).0
  unfolding interleave
  interleave-EndsAt n i [] ps w h = rw (same n) h
    where
      same : (n : ℕ) → n - 0 ≡ n
      same n = omega arith
  interleave-EndsAt n i (j ∷ js) ps w h = rw (same n (if j == i then 1 else 0) (turns_of i js)) (
      interleave-EndsAt (n - (if j == i then 1 else 0)) i js (turn j ps w).0 (turn j ps w).1
        (turn-EndsAt n i j ps w h))
    where
      same : (n a b : ℕ) → n - (a + b) ≡ n - a - b
      same n a b = omega arith

  AllEndWithin-EndsAt :
      (n i : ℕ) (ps : List (Program A)) → AllEndWithin n ps → i < length ps → EndsAt n i ps
  AllEndWithin-EndsAt n i [] h lt = absurd (omega arith)
  AllEndWithin-EndsAt n zero (p ∷ ps) (h, rest) lt = h
  AllEndWithin-EndsAt n (suc i) (p ∷ ps) (h, rest) lt =
      AllEndWithin-EndsAt n i ps rest (omega arith)

  pub ended :
      (i : ℕ) (ps : List (Program A))
      → EndsAt 0 i ps
      → (r : Result A AppError) × (outcome_at i ps ≡ some r)
  ended i [] h = absurd h
  ended zero (ret a ∷ ps) h = (ok a, refl)
  ended zero (fail e ∷ ps) h = (err e, refl)
  ended zero (await m k ∷ ps) h = absurd h
  ended (suc i) (p ∷ ps) h = ended i ps h

  -- A program that needs at most `n` awaits has ended once it had `n` turns, whatever turns the
  -- others had.
  pub interleave_ends :
      (n i : ℕ) (js : List ℕ) (ps : List (Program A)) (w : World)
      → AllEndWithin n ps
      → i < length ps
      → n ≤ turns_of i js
      → (r : Result A AppError) × (outcome_at i (interleave js ps w).0 ≡ some r)
  interleave_ends n i js ps w h lt le = ended i (interleave js ps w).0 (
      subst (λ k. EndsAt k i (interleave js ps w).0) (omega arith)
        (interleave-EndsAt n i js ps w (AllEndWithin-EndsAt n i ps h lt)))

  -- The answer of one program among those that answered as promised.
  pub answered_at :
      {X : Type 0} (Q : X → A → Type 0) (i : ℕ) (xs : List X) (ps : List (Program A)) (x : X)
      (a : A)
      → AllAnswered Q xs ps
      → get_elem? xs i ≡ some x
      → outcome_at i ps ≡ some (ok a)
      → Q x a
  answered_at Q i [] ps x a h e o = absurd (ground arith)
  answered_at Q i (y ∷ xs) [] x a h e o = absurd h
  answered_at Q zero (y ∷ xs) (ret b ∷ ps) x a (h, rest) e o =
      subst (λ z. Q z a) (ground (arith, e)) (subst (Q y) (ground (arith, o)) h)
  answered_at Q zero (y ∷ xs) (fail z ∷ ps) x a h e o = absurd (ground arith)
  answered_at Q zero (y ∷ xs) (await m k ∷ ps) x a h e o = absurd (ground arith)
  answered_at Q (suc i) (y ∷ xs) (p ∷ ps) x a (h, rest) e o = answered_at Q i xs ps x a rest e o
