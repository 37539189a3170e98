-- ===== src/Runtime/Program/Spends.antt =====
-- Programs that share a world: how many transactions they send together.
use xend.Common.{ℕ, zero, suc, ◌+◌, ◌≤◌, List, [], ◌∷◌, Result, ok, err, arith}
use xend.Error.{AppError}
use xend.Runtime.{World}
use xend.Runtime.Sends.{sends, SendsAtMost}
use xend.Runtime.Program.{Program, ret, fail, await, advance, resume_with, turn, interleave}

-- The awaits that are left send at most `n` transactions, along every path.
abbrev pub SpendsWithin : {A : Type 0} → Program A → ℕ → Type 0
SpendsWithin (ret a) n = Unit
SpendsWithin (fail e) n = Unit
SpendsWithin (await {B} m k) n =
    (cost rest : ℕ) × (cost + rest ≤ n) × SendsAtMost cost m × ((b : B) → SpendsWithin (k b) rest)

-- The same for all of the programs together.
abbrev pub AllSpendWithin : {A : Type 0} → List (Program A) → ℕ → Type 0
AllSpendWithin [] n = Unit
AllSpendWithin (p ∷ ps) n =
    (own rest : ℕ) × (own + rest ≤ n) × SpendsWithin p own × AllSpendWithin ps rest

module _ {A : Type 0} where
  resume-SpendsWithin :
      {B : Type 0} (n : ℕ) (k : B → Program A) (r : Result B AppError)
      → ((b : B) → SpendsWithin (k b) n)
      → SpendsWithin (resume_with k r) n
  resume-SpendsWithin n k (ok b) h = h b
  resume-SpendsWithin n k (err e) h = tt

  pub SpendsWithin-mono : (n m : ℕ) (p : Program A) → n ≤ m → SpendsWithin p n → SpendsWithin p m
  SpendsWithin-mono n m (ret a) le h = tt
  SpendsWithin-mono n m (fail e) le h = tt
  SpendsWithin-mono n m (await act k) le (cost, rest, fits, own, after) =
      (cost, rest, omega (arith, le, fits), own, after)

  pub advance-SpendsWithin :
      (n : ℕ) (p : Program A) (w : World)
      → SpendsWithin p n
      → (cost rest : ℕ) × (cost + rest ≤ n)
        × (sends (advance p w).1.sent ≤ cost + sends w.sent)
        × SpendsWithin (advance p w).0 rest
  unfolding advance
  advance-SpendsWithin n (ret a) w s = (0, n, omega arith, omega arith, tt)
  advance-SpendsWithin n (fail e) w s = (0, n, omega arith, omega arith, tt)
  advance-SpendsWithin n (await m k) w (cost, rest, le, own, after) =
      (cost, rest, le, own.at w, resume-SpendsWithin rest k (m w).0 after)

  turn-AllSpendWithin :
      (i n : ℕ) (ps : List (Program A)) (w : World)
      → AllSpendWithin ps n
      → (cost rest : ℕ) × (cost + rest ≤ n)
        × (sends (turn i ps w).1.sent ≤ cost + sends w.sent)
        × AllSpendWithin (turn i ps w).0 rest
  unfolding turn
  turn-AllSpendWithin i n [] w s = (0, n, omega arith, omega arith, tt)
  turn-AllSpendWithin zero n (p ∷ ps) w (own, others, le, s, all) =
      let (cost, rest, fits, sent, s') = advance-SpendsWithin own p w s in
      (cost, rest + others, omega (arith, le, fits), sent, (rest, others, omega arith, s', all))
  turn-AllSpendWithin (suc i) n (p ∷ ps) w (own, others, le, s, all) =
      let (cost, rest, fits, sent, all') = turn-AllSpendWithin i others ps w all in
      (cost, own + rest, omega (arith, le, fits), sent, (own, rest, omega arith, s, all'))

  -- However programs are interleaved, they send together at most what each may send.
  pub interleave-sends-le :
      (schedule : List ℕ) (n : ℕ) (ps : List (Program A)) (w : World)
      → AllSpendWithin ps n
      → sends (interleave schedule ps w).1.sent ≤ n + sends w.sent
  unfolding interleave
  interleave-sends-le [] n ps w s = omega arith
  interleave-sends-le (i ∷ schedule) n ps w s =
      let (cost, rest, fits, sent, s') = turn-AllSpendWithin i n ps w s in
      omega
        (arith, fits, sent, interleave-sends-le schedule rest (turn i ps w).0 (turn i ps w).1 s')
