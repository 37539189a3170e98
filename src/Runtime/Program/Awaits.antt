-- ===== src/Runtime/Program/Awaits.antt =====
-- What each await of a program does to the world.
use xend.Common.{ℕ, zero, suc, List, [], ◌∷◌, All, arith, Result, ok, err}
use xend.Error.{AppError}
use xend.Runtime.{World}
use xend.Runtime.Moves.{Moves}
use xend.Runtime.Sends.{SameSends, SendsAtMost_of_SameSends}
use xend.Runtime.Program.{Program, ret, fail, await, checked_then, advance, resume_with, turn}
use xend.Runtime.Program.Shared.{Safe}
use xend.Runtime.Program.Spends.{SpendsWithin}

abbrev pub EachMoves : {A : Type 0} → (World → World → Type 0) → Program A → Type 0
EachMoves R (ret a) = Unit
EachMoves R (fail e) = Unit
EachMoves R (await {B} m k) = Moves R m × ((b : B) → EachMoves R (k b))

pub checked-EachMoves :
    {A B : Type 0} (R : World → World → Type 0) (r : Result A AppError) (k : A → Program B)
    → ((a : A) → EachMoves R (k a))
    → EachMoves R (checked_then r k)
unfolding checked_then
checked-EachMoves R (ok a) k h = h a
checked-EachMoves R (err e) k h = tt

pub EachMoves-Safe :
    {A : Type 0} (I : World → Type 0) (Q : A → Type 0) (p : Program A)
    → ((a : A) → Q a)
    → EachMoves (λ u v. I u → I v) p
    → Safe I Q p
EachMoves-Safe I Q (ret a) q h = q a
EachMoves-Safe I Q (fail e) q h = tt
EachMoves-Safe I Q (await m k) q (keeps, h) =
    λ w i. (keeps.at w i, λ b e. EachMoves-Safe I Q (k b) q (h b))

pub EachMoves-SpendsWithin :
    {A : Type 0} (n : ℕ) (p : Program A) → EachMoves SameSends p → SpendsWithin p n
EachMoves-SpendsWithin n (ret a) h = tt
EachMoves-SpendsWithin n (fail e) h = tt
EachMoves-SpendsWithin n (await m k) (same, h) =
    (0, n, omega arith, SendsAtMost_of_SameSends _ same, λ b. EachMoves-SpendsWithin n (k b) (h b))

module _ {A : Type 0} (R : World → World → Type 0) (reflexive : (w : World) → R w w) where
  resume-EachMoves :
      {B : Type 0} (k : B → Program A) (r : Result B AppError)
      → ((b : B) → EachMoves R (k b))
      → EachMoves R (resume_with k r)
  resume-EachMoves k (ok b) h = h b
  resume-EachMoves k (err e) h = tt

  advance-EachMoves :
      (p : Program A) (w : World)
      → EachMoves R p
      → EachMoves R (advance p w).0 × R w (advance p w).1
  unfolding advance
  advance-EachMoves (ret a) w h = (h, reflexive w)
  advance-EachMoves (fail e) w h = (h, reflexive w)
  advance-EachMoves (await m k) w (moves, h) = (resume-EachMoves k (m w).0 h, moves.at w)

  pub turn-EachMoves :
      (i : ℕ) (ps : List (Program A)) (w : World)
      → All (EachMoves R) ps
      → All (EachMoves R) (turn i ps w).0 × R w (turn i ps w).1
  unfolding turn
  turn-EachMoves i [] w h = (h, reflexive w)
  turn-EachMoves zero (p ∷ ps) w (h, rest) =
      let (h', moves) = advance-EachMoves p w h in ((h', rest), moves)
  turn-EachMoves (suc i) (p ∷ ps) w (h, rest) =
      let (rest', moves) = turn-EachMoves i ps w rest in ((h, rest'), moves)
