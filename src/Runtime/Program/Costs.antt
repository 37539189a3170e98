-- ===== src/Runtime/Program/Costs.antt =====
-- Programs that share a world with an invariant: what they answer, and how many transactions they
-- send together, where both may depend on the invariant.
use xend.Common.{ℕ, zero, suc, ◌+◌, ◌≤◌, ◌≡◌, refl, List, [], ◌∷◌, ◌++◌, Result, ok, err, arith}
use xend.Error.{AppError}
use xend.Runtime.{World}
use xend.Runtime.Sends.{sends}
use xend.Runtime.Program.{Program, ret, fail, await, advance, resume_with, turn, map_program}
use xend.Runtime.Program.Shared.{Safe, Answered, AllAnswered}
use xend.Runtime.Program.Spends.{SpendsWithin}

-- From worlds with the invariant, each await keeps it, the awaits that are left send at most `n`
-- transactions, and an answer is as promised.
abbrev pub Costs : {A : Type 0} → (World → Type 0) → (A → Type 0) → Program A → ℕ → Type 0
Costs I Q (ret a) n = Q a
Costs I Q (fail e) n = Unit
Costs I Q (await {B} m k) n =
    (w : World)
    → I w
    → (cost rest : ℕ) × (cost + rest ≤ n)
      × (sends (m w).1.sent ≤ cost + sends w.sent)
      × I (m w).1
      × ((b : B) → (m w).0 ≡ ok b → Costs I Q (k b) rest)

abbrev pub AllCost :
    {A X : Type 0} → (World → Type 0) → (X → A → Type 0) → List X → List (Program A) → ℕ → Type 0
AllCost I Q [] [] n = Unit
AllCost I Q [] (p ∷ ps) n = ⊥
AllCost I Q (x ∷ xs) [] n = ⊥
AllCost I Q (x ∷ xs) (p ∷ ps) n =
    (own rest : ℕ) × (own + rest ≤ n) × Costs I (Q x) p own × AllCost I Q xs ps rest

module _ {A : Type 0} (I : World → Type 0) where
  -- A program that is safe, and sends at most `n` from any world.
  pub Costs-Safe :
      (Q : A → Type 0) (n : ℕ) (p : Program A) → Safe I Q p → SpendsWithin p n → Costs I Q p n
  Costs-Safe Q n (ret a) safe spends = safe
  Costs-Safe Q n (fail e) safe spends = tt
  Costs-Safe Q n (await m k) safe (cost, rest, le, own, after) = λ w i. (
    cost,
    rest,
    le,
    own.at w,
    (safe w i).0,
    λ b e. Costs-Safe Q rest (k b) ((safe w i).1 b e) (after b),
  )

  resume-Costs :
      {B : Type 0} (Q : A → Type 0) (n : ℕ) (k : B → Program A) (r : Result B AppError)
      → ((b : B) → r ≡ ok b → Costs I Q (k b) n)
      → Costs I Q (resume_with k r) n
  resume-Costs Q n k (ok b) h = h b refl
  resume-Costs Q n k (err e) h = tt

  advance-Costs :
      (Q : A → Type 0) (n : ℕ) (p : Program A) (w : World)
      → Costs I Q p n
      → I w
      → (cost rest : ℕ) × (cost + rest ≤ n)
        × (sends (advance p w).1.sent ≤ cost + sends w.sent)
        × I (advance p w).1
        × Costs I Q (advance p w).0 rest
  unfolding advance
  advance-Costs Q n (ret a) w h i = (0, n, omega arith, omega arith, i, h)
  advance-Costs Q n (fail e) w h i = (0, n, omega arith, omega arith, i, h)
  advance-Costs Q n (await m k) w h i =
      let (cost, rest, le, sent, kept, after) = h w i in
      (cost, rest, le, sent, kept, resume-Costs Q rest k (m w).0 after)

  module _ {X : Type 0} (Q : X → A → Type 0) where
    pub turn-AllCost :
        (i n : ℕ) (xs : List X) (ps : List (Program A)) (w : World)
        → AllCost I Q xs ps n
        → I w
        → (cost rest : ℕ) × (cost + rest ≤ n)
          × (sends (turn i ps w).1.sent ≤ cost + sends w.sent)
          × I (turn i ps w).1
          × AllCost I Q xs (turn i ps w).0 rest
    unfolding turn
    turn-AllCost i n [] [] w h inv = (0, n, omega arith, omega arith, inv, h)
    turn-AllCost i n [] (p ∷ ps) w h inv = absurd h
    turn-AllCost i n (x ∷ xs) [] w h inv = absurd h
    turn-AllCost zero n (x ∷ xs) (p ∷ ps) w (own, others, le, h, all) inv =
        let (cost, rest, fits, sent, kept, h') = advance-Costs (Q x) own p w h inv in
        (
          cost,
          rest + others,
          omega (arith, le, fits),
          sent,
          kept,
          (rest, others, omega arith, h', all),
        )
    turn-AllCost (suc i) n (x ∷ xs) (p ∷ ps) w (own, others, le, h, all) inv =
        let (cost, rest, fits, sent, kept, all') = turn-AllCost i others xs ps w all inv in
        (cost, own + rest, omega (arith, le, fits), sent, kept, (own, rest, omega arith, h, all'))

    pub append-AllCost :
        (own n : ℕ) (xs : List X) (ps : List (Program A)) (x : X) (p : Program A)
        → Costs I (Q x) p own
        → AllCost I Q xs ps n
        → AllCost I Q (xs ++ x ∷ []) (ps ++ p ∷ []) (own + n)
    append-AllCost own n [] [] x p h all = (own, 0, omega arith, h, tt)
    append-AllCost own n [] (q ∷ ps) x p h all = absurd all
    append-AllCost own n (y ∷ xs) [] x p h all = absurd all
    append-AllCost own n (y ∷ xs) (q ∷ ps) x p h (first, rest, fits, g, all) =
        (first, own + rest, omega (arith, fits), g, append-AllCost own rest xs ps x p h all)

    Costs-Answered : (x : X) (n : ℕ) (p : Program A) → Costs I (Q x) p n → Answered (Q x) p
    Costs-Answered x n (ret a) h = h
    Costs-Answered x n (fail e) h = tt
    Costs-Answered x n (await m k) h = tt

    pub AllCost-AllAnswered :
        (n : ℕ) (xs : List X) (ps : List (Program A)) → AllCost I Q xs ps n → AllAnswered Q xs ps
    AllCost-AllAnswered n [] [] all = tt
    AllCost-AllAnswered n [] (p ∷ ps) all = absurd all
    AllCost-AllAnswered n (x ∷ xs) [] all = absurd all
    AllCost-AllAnswered n (x ∷ xs) (p ∷ ps) (own, rest, fits, h, all) =
        (Costs-Answered x own p h, AllCost-AllAnswered rest xs ps all)

-- The same for a program whose answer is wrapped.
pub map-Costs :
    {A B : Type 0} (f : A → B) (I : World → Type 0) (Q : A → Type 0) (R : B → Type 0) (n : ℕ)
    (p : Program A)
    → ((a : A) → Q a → R (f a))
    → Costs I Q p n
    → Costs I R (map_program f p) n
unfolding map_program
map-Costs f I Q R n (ret a) q h = q a h
map-Costs f I Q R n (fail e) q h = tt
map-Costs f I Q R n (await m k) q h = λ w i.
    let (cost, rest, le, sent, kept, after) = h w i in
    (cost, rest, le, sent, kept, λ b e. map-Costs f I Q R rest (k b) q (after b e))
