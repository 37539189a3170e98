-- ===== src/Runtime/Program/Maps.antt =====
-- A program whose answer is wrapped has the awaits of the program.
use xend.Common.{ℕ, zero, suc, refl, sym, ◌∙◌}
use xend.Runtime.{World, pure, raise, ◌>>=◌}
use xend.Runtime.Agrees.{Agrees, bind-Agrees, bind_assoc}
use xend.Runtime.Program.{Program, ret, fail, await, run, map_program}
use xend.Runtime.Program.Shared.{Safe}
use xend.Runtime.Program.Spends.{SpendsWithin}
use xend.Runtime.Program.Turns.{EndsWithin}
use xend.Runtime.Program.Awaits.{EachMoves}

module _ {A B : Type 0} (f : A → B) where
  pub run-map_program : (p : Program A) → Agrees (run (map_program f p)) (run p >>= λ a. pure (f a))
  unfolding run map_program ◌>>=◌ pure raise
  run-map_program (ret a) w = refl
  run-map_program (fail e) w = refl
  run-map_program (await m k) w =
      bind-Agrees m _ _ (λ b. run-map_program (k b)) w
      ∙ sym (bind_assoc m (λ b. run (k b)) (λ a. pure (f a)) w)

  pub map-EndsWithin : (n : ℕ) (p : Program A) → EndsWithin p n → EndsWithin (map_program f p) n
  unfolding map_program
  map-EndsWithin n (ret a) h = tt
  map-EndsWithin n (fail e) h = tt
  map-EndsWithin zero (await m k) h = absurd h
  map-EndsWithin (suc n) (await m k) h = λ b. map-EndsWithin n (k b) (h b)

  pub map-SpendsWithin :
      (n : ℕ) (p : Program A) → SpendsWithin p n → SpendsWithin (map_program f p) n
  unfolding map_program
  map-SpendsWithin n (ret a) h = tt
  map-SpendsWithin n (fail e) h = tt
  map-SpendsWithin n (await m k) (cost, rest, le, own, h) =
      (cost, rest, le, own, λ b. map-SpendsWithin rest (k b) (h b))

  pub map-EachMoves :
      (R : World → World → Type 0) (p : Program A) → EachMoves R p → EachMoves R (map_program f p)
  unfolding map_program
  map-EachMoves R (ret a) h = tt
  map-EachMoves R (fail e) h = tt
  map-EachMoves R (await m k) (here, h) = (here, λ b. map-EachMoves R (k b) (h b))

  pub map-Safe :
      (I : World → Type 0) (Q : A → Type 0) (R : B → Type 0) (p : Program A)
      → ((a : A) → Q a → R (f a))
      → Safe I Q p
      → Safe I R (map_program f p)
  unfolding map_program
  map-Safe I Q R (ret a) q h = q a h
  map-Safe I Q R (fail e) q h = tt
  map-Safe I Q R (await m k) q h =
      λ w i. let (kept, after) = h w i in (kept, λ b e. map-Safe I Q R (k b) q (after b e))
