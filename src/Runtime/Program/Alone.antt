-- ===== src/Runtime/Program/Alone.antt =====
-- A program that gets turns while the others wait.
use xend.Common.{
  ℕ, zero, suc, ◌≡◌, refl, ap, ◌∙◌, List, [], ◌∷◌, ◌++◌, some, Result, ok, err, length,
}
use xend.Error.{AppError}
use xend.Runtime.{World, pure, raise, continue, ◌>>=◌}
use xend.Runtime.Program.{
  Program, ret, fail, await, advance, resume_with, run, turn, interleave, outcome_of,
}
use xend.Runtime.Program.Turns.{EndsWithin, outcome_at}

abbrev pub times : {A : Type 0} → ℕ → A → List A
times zero a = []
times (suc n) a = a ∷ times n a

module _ {A : Type 0} where
  unfoldable pub advance_times : ℕ → Program A → World → Program A × World
  advance_times zero p w = (p, w)
  advance_times (suc n) p w = let (p', w') = advance p w in advance_times n p' w'

  -- The program has ended with this result, in this world.
  abbrev pub EndedAs : Result A AppError × World → Program A × World → Type 0
  EndedAs (r, w) (p, v) = (outcome_of p ≡ some r) × (v ≡ w)

  ret_stays : (n : ℕ) (a : A) (w : World) → EndedAs (ok a, w) (advance_times n (ret a) w)
  unfolding advance_times advance
  ret_stays zero a w = (refl, refl)
  ret_stays (suc n) a w = ret_stays n a w

  fail_stays : (n : ℕ) (e : AppError) (w : World) → EndedAs (err e, w) (advance_times n (fail e) w)
  unfolding advance_times advance
  fail_stays zero e w = (refl, refl)
  fail_stays (suc n) e w = fail_stays n e w

  resumed_ends :
      {B : Type 0} (n : ℕ) (k : B → Program A) (r : Result B AppError × World)
      → ((b : B) (w : World) → EndedAs (run (k b) w) (advance_times n (k b) w))
      → EndedAs (continue (λ b. run (k b)) r) (advance_times n (resume_with k r.0) r.1)
  resumed_ends n k (ok b, w) h = h b w
  resumed_ends n k (err e, w) h = fail_stays n e w

  -- With all the turns that it may need, it ends as it does alone.
  pub advance_times-EndedAs :
      (n : ℕ) (p : Program A) (w : World) → EndsWithin p n → EndedAs (run p w) (advance_times n p w)
  unfolding run pure raise ◌>>=◌ advance_times advance
  advance_times-EndedAs n (ret a) w h = ret_stays n a w
  advance_times-EndedAs n (fail e) w h = fail_stays n e w
  advance_times-EndedAs zero (await m k) w h = absurd h
  advance_times-EndedAs (suc n) (await m k) w h =
      resumed_ends n k (m w) (λ b v. advance_times-EndedAs n (k b) v (h b))

  pub turn_last :
      (ps : List (Program A)) (p : Program A) (w : World)
      → turn (length ps) (ps ++ p ∷ []) w ≡ (ps ++ (advance p w).0 ∷ [], (advance p w).1)
  unfolding turn
  turn_last [] p w = refl
  turn_last (q ∷ ps) p w = rw (turn_last ps p w) refl

  pub interleave_last :
      (n : ℕ) (ps : List (Program A)) (p : Program A) (w : World)
      → interleave (times n (length ps)) (ps ++ p ∷ []) w
        ≡ (ps ++ (advance_times n p w).0 ∷ [], (advance_times n p w).1)
  unfolding interleave advance_times
  interleave_last zero ps p w = refl
  interleave_last (suc n) ps p w =
      ap (λ r. interleave (times n (length ps)) r.0 r.1) (turn_last ps p w)
      ∙ interleave_last n ps (advance p w).0 (advance p w).1

  pub outcome_last :
      (ps : List (Program A)) (p : Program A) → outcome_at (length ps) (ps ++ p ∷ []) ≡ outcome_of p
  outcome_last [] p = refl
  outcome_last (q ∷ ps) p = outcome_last ps p
