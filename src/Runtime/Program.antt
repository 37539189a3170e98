-- ===== src/Runtime/Program.antt =====
-- An action taken apart at the points where another request may run: a program is a tree of the
-- actions that it awaits.
pub mod Shared
pub mod Turns
pub mod Succeeds
pub mod Spends
pub mod Maps
pub mod Awaits
pub mod Owed
pub mod Costs
pub mod Tracked
pub mod Delivers
pub mod Alone
use xend.Common.{
  ℕ, zero, suc, ◌≡◌, refl, ◌∙◌, List, [], ◌∷◌, Option, none, some, Result, ok, err, arith,
}
use xend.Error.{AppError}
use xend.Runtime.{World, M, pure, raise, ◌>>=◌, continue}

pub data Program (A : Type 0) : Type 1 where
  ret : A → Program A
  fail : AppError → Program A
  await : {B : Type 0} → M B → (B → Program A) → Program A

-- The program run alone.
unfoldable pub run : {A : Type 0} → Program A → M A
run (ret a) = pure a
run (fail e) = raise e
run (await m k) = m >>= λ b. run (k b)

abbrev pub resume_with : {A B : Type 0} → (B → Program A) → Result B AppError → Program A
resume_with k (ok b) = k b
resume_with k (err e) = fail e

-- A program whose answer is wrapped.
unfoldable pub map_program : {A B : Type 0} → (A → B) → Program A → Program B
map_program f (ret a) = ret (f a)
map_program f (fail e) = fail e
map_program f (await m k) = await m λ b. map_program f (k b)

-- A check without an await, and what follows it.
unfoldable pub checked_then : {A B : Type 0} → Result A AppError → (A → Program B) → Program B
checked_then (ok a) k = k a
checked_then (err e) k = fail e

-- One await of a program. One that has ended stays.
unfoldable pub advance : {A : Type 0} → Program A → World → Program A × World
advance (ret a) w = (ret a, w)
advance (fail e) w = (fail e, w)
advance (await m k) w = let (r, w') = m w in (resume_with k r, w')

-- The result of a program that has ended.
abbrev pub outcome_of : {A : Type 0} → Program A → Option (Result A AppError)
outcome_of (ret a) = some (ok a)
outcome_of (fail e) = some (err e)
outcome_of (await m k) = none

-- The program with the given number gets its turn.
unfoldable pub turn : {A : Type 0} → ℕ → List (Program A) → World → List (Program A) × World
turn i [] w = ([], w)
turn zero (p ∷ ps) w = let (p', w') = advance p w in (p' ∷ ps, w')
turn (suc i) (p ∷ ps) w = let (ps', w') = turn i ps w in (p ∷ ps', w')

-- A schedule: whose turn it is, one after the other.
unfoldable pub interleave :
    {A : Type 0} → List ℕ → List (Program A) → World → List (Program A) × World
interleave [] ps w = (ps, w)
interleave (i ∷ is) ps w = let (ps', w') = turn i ps w in interleave is ps' w'
