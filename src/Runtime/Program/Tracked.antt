-- ===== src/Runtime/Program/Tracked.antt =====
-- One program that cannot fail among programs that keep its invariant.
use mathlib.Core.Path.{subst}
use xend.Common.{
  ℕ, zero, suc, ◌≡◌, sym, ap, ◌∙◌, List, [], ◌∷◌, ◌++◌, some, Result, ok, arith, length,
}
use xend.Error.{AppError}
use xend.Runtime.{World}
use xend.Runtime.Program.{Program, ret, fail, await, turn, map_program}
use xend.Runtime.Program.Shared.{Safe}
use xend.Runtime.Program.Turns.{outcome_at}
use xend.Runtime.Program.Succeeds.{Succeeds, advance-Succeeds}

module _ {A : Type 0} (I : World → Type 0) (Q : A → Type 0) where
  -- A program that cannot fail keeps the invariant.
  pub Succeeds-Safe : (p : Program A) → Succeeds I Q p → Safe I (λ a. Unit) p
  Succeeds-Safe (ret a) s = tt
  Succeeds-Safe (fail e) s = absurd s
  Succeeds-Safe (await m k) s = λ w i.
      let (b, w', e, kept, rest) = s w i in
      (
        subst I (ap (λ r. r.1) (sym e)) kept,
        λ b' e'.
            Succeeds-Safe (k b')
              (subst (λ x. Succeeds I Q (k x)) (same_answer (ap (λ r. r.0) (sym e) ∙ e')) rest),
      )
    where
      same_answer : {B : Type 0} {a b : B} → ◌≡◌ {A = Result B AppError} (ok a) (ok b) → a ≡ b
      same_answer e = ground (arith, e)

  abbrev pub SucceedsAt : ℕ → List (Program A) → Type 0
  SucceedsAt i [] = ⊥
  SucceedsAt zero (p ∷ ps) = Succeeds I Q p
  SucceedsAt (suc i) (p ∷ ps) = SucceedsAt i ps

  pub SucceedsAt-append :
      (i : ℕ) (ps qs : List (Program A)) → SucceedsAt i ps → SucceedsAt i (ps ++ qs)
  SucceedsAt-append i [] qs h = absurd h
  SucceedsAt-append zero (p ∷ ps) qs h = h
  SucceedsAt-append (suc i) (p ∷ ps) qs h = SucceedsAt-append i ps qs h

  pub SucceedsAt-last :
      (ps : List (Program A)) (p : Program A)
      → Succeeds I Q p
      → SucceedsAt (length ps) (ps ++ p ∷ [])
  SucceedsAt-last [] p h = h
  SucceedsAt-last (q ∷ ps) p h = SucceedsAt-last ps p h

  pub turn-SucceedsAt :
      (i j : ℕ) (ps : List (Program A)) (w : World)
      → SucceedsAt i ps
      → I w
      → SucceedsAt i (turn j ps w).0
  unfolding turn
  turn-SucceedsAt i j [] w h inv = absurd h
  turn-SucceedsAt zero zero (p ∷ ps) w h inv = (advance-Succeeds I Q p w h inv).0
  turn-SucceedsAt zero (suc j) (p ∷ ps) w h inv = h
  turn-SucceedsAt (suc i) zero (p ∷ ps) w h inv = h
  turn-SucceedsAt (suc i) (suc j) (p ∷ ps) w h inv = turn-SucceedsAt i j ps w h inv

  -- It can have ended with an answer only.
  pub SucceedsAt-answer :
      (i : ℕ) (ps : List (Program A)) (r : Result A AppError)
      → SucceedsAt i ps
      → outcome_at i ps ≡ some r
      → (a : A) × (r ≡ ok a) × Q a
  SucceedsAt-answer i [] r h e = absurd h
  SucceedsAt-answer zero (ret a ∷ ps) r h e = (a, ground arith, h)
  SucceedsAt-answer zero (fail x ∷ ps) r h e = absurd h
  SucceedsAt-answer zero (await m k ∷ ps) r h e = absurd (ground arith)
  SucceedsAt-answer (suc i) (p ∷ ps) r h e = SucceedsAt-answer i ps r h e

pub map-Succeeds :
    {A B : Type 0} (f : A → B) (I : World → Type 0) (Q : A → Type 0) (R : B → Type 0)
    (p : Program A)
    → ((a : A) → Q a → R (f a))
    → Succeeds I Q p
    → Succeeds I R (map_program f p)
unfolding map_program
map-Succeeds f I Q R (ret a) q h = q a h
map-Succeeds f I Q R (fail e) q h = absurd h
map-Succeeds f I Q R (await m k) q h =
    λ w i. let (b, w', e, kept, rest) = h w i in (b, w', e, kept, map-Succeeds f I Q R (k b) q rest)
