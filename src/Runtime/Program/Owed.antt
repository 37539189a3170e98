-- ===== src/Runtime/Program/Owed.antt =====
-- Programs that share a world: how many transactions some of them still send, the ones whose label
-- counts.
use xend.Common.{
  ℕ, zero, suc, ◌+◌, ◌-◌, ◌≤◌, Bool, true, false, List, [], ◌∷◌, ◌++◌, arith, if◌then◌else◌,
}
use xend.Runtime.{World}
use xend.Runtime.Sends.{sends}
use xend.Runtime.Program.{Program, turn}
use xend.Runtime.Program.Spends.{SpendsWithin, advance-SpendsWithin}

one_pays :
    (b : Bool) (own cost left others n before after : ℕ)
    → (if b then own else 0) + others ≤ n
    → cost + left ≤ own
    → after ≤ cost + before
    → (paid rest : ℕ) × (paid + rest ≤ n)
      × ((if b then after - before else 0) ≤ paid)
      × ((if b then left else 0) + others ≤ rest)
one_pays true own cost left others n before after le fits sent =
    (cost, left + others, omega arith, omega arith, omega arith)
one_pays false own cost left others n before after le fits sent =
    (0, n, omega arith, omega arith, omega arith)

module _ {X : Type 0} (counts : X → Bool) where
  abbrev pub counted_at : ℕ → List X → Bool
  counted_at i [] = false
  counted_at zero (x ∷ xs) = counts x
  counted_at (suc i) (x ∷ xs) = counted_at i xs

  abbrev pub Owed : {A : Type 0} → List X → List (Program A) → ℕ → Type 0
  Owed [] [] n = Unit
  Owed [] (p ∷ ps) n = ⊥
  Owed (x ∷ xs) [] n = ⊥
  Owed (x ∷ xs) (p ∷ ps) n =
      (own rest : ℕ) × ((if counts x then own else 0) + rest ≤ n)
      × SpendsWithin p own
      × Owed xs ps rest

  module _ {A : Type 0} where
    pub turn-Owed :
        (i n : ℕ) (xs : List X) (ps : List (Program A)) (w : World)
        → Owed xs ps n
        → (paid rest : ℕ) × (paid + rest ≤ n)
          × ((if counted_at i xs then sends (turn i ps w).1.sent - sends w.sent else 0) ≤ paid)
          × Owed xs (turn i ps w).0 rest
    unfolding turn
    turn-Owed i n [] [] w o = (0, n, omega arith, omega arith, tt)
    turn-Owed i n [] (p ∷ ps) w o = absurd o
    turn-Owed i n (x ∷ xs) [] w o = absurd o
    turn-Owed zero n (x ∷ xs) (p ∷ ps) w (own, others, le, s, o) =
        let (cost, left, fits, sent, s') = advance-SpendsWithin own p w s in
        let (paid, rest, bound, pays, fits') =
          one_pays (counts x) own cost left others n _ _ le fits sent in
        (paid, rest, bound, pays, (left, others, fits', s', o))
    turn-Owed (suc i) n (x ∷ xs) (p ∷ ps) w (own, others, le, s, o) =
        let (paid, rest, bound, pays, o') = turn-Owed i others xs ps w o in
        let first = if counts x then own else 0 in
        (paid, first + rest, omega (arith, le, bound), pays, (own, rest, omega arith, s, o'))

    pub append-Owed :
        (own k n : ℕ) (xs : List X) (ps : List (Program A)) (x : X) (p : Program A)
        → (if counts x then own else 0) ≤ k
        → SpendsWithin p own
        → Owed xs ps n
        → Owed (xs ++ x ∷ []) (ps ++ p ∷ []) (k + n)
    append-Owed own k n [] [] x p le s o = (own, 0, omega arith, s, tt)
    append-Owed own k n [] (q ∷ ps) x p le s o = absurd o
    append-Owed own k n (y ∷ xs) [] x p le s o = absurd o
    append-Owed own k n (y ∷ xs) (q ∷ ps) x p le s (own', rest, fits, s', o) =
        (own', k + rest, omega (arith, fits), s', append-Owed own k rest xs ps x p le s o)
