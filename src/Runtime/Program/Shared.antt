-- ===== src/Runtime/Program/Shared.antt =====
-- Programs that share a world: what holds of the world whenever a program awaits, and what a program
-- has answered when it ends, whatever the schedule is.
use xend.Common.{ℕ, zero, suc, ◌≡◌, refl, List, [], ◌∷◌, ◌++◌, Result, ok, err}
use xend.Error.{AppError}
use xend.Runtime.{World}
use xend.Runtime.Program.{Program, ret, fail, await, advance, resume_with, turn, interleave}

-- Each await keeps the invariant, from any world that has it, and an answer of the program is as
-- promised.
abbrev pub Safe : {A : Type 0} → (World → Type 0) → (A → Type 0) → Program A → Type 0
Safe I Q (ret a) = Q a
Safe I Q (fail e) = Unit
Safe I Q (await {B} m k) =
    (w : World) → I w → I (m w).1 × ((b : B) → (m w).0 ≡ ok b → Safe I Q (k b))

-- Programs with their labels; what is promised depends on the label.
abbrev pub AllSafe :
    {A X : Type 0} → (World → Type 0) → (X → A → Type 0) → List X → List (Program A) → Type 0
AllSafe I Q [] [] = Unit
AllSafe I Q [] (p ∷ ps) = ⊥
AllSafe I Q (x ∷ xs) [] = ⊥
AllSafe I Q (x ∷ xs) (p ∷ ps) = Safe I (Q x) p × AllSafe I Q xs ps

abbrev pub Answered : {A : Type 0} → (A → Type 0) → Program A → Type 0
Answered Q (ret a) = Q a
Answered Q (fail e) = Unit
Answered Q (await m k) = Unit

-- Each program that has ended with an answer gave one as promised.
abbrev pub AllAnswered : {A X : Type 0} → (X → A → Type 0) → List X → List (Program A) → Type 0
AllAnswered Q [] [] = Unit
AllAnswered Q [] (p ∷ ps) = ⊥
AllAnswered Q (x ∷ xs) [] = ⊥
AllAnswered Q (x ∷ xs) (p ∷ ps) = Answered (Q x) p × AllAnswered Q xs ps

module _ {A : Type 0} (I : World → Type 0) where
  resume-Safe :
      {B : Type 0} (Q : A → Type 0) (k : B → Program A) (r : Result B AppError)
      → ((b : B) → r ≡ ok b → Safe I Q (k b))
      → Safe I Q (resume_with k r)
  resume-Safe Q k (ok b) h = h b refl
  resume-Safe Q k (err e) h = tt

  advance-Safe :
      (Q : A → Type 0) (p : Program A) (w : World)
      → Safe I Q p
      → I w
      → Safe I Q (advance p w).0 × I (advance p w).1
  unfolding advance
  advance-Safe Q (ret a) w s i = (s, i)
  advance-Safe Q (fail e) w s i = (s, i)
  advance-Safe Q (await m k) w s i =
      let (kept, then_safe) = s w i in (resume-Safe Q k (m w).0 then_safe, kept)

  module _ {X : Type 0} (Q : X → A → Type 0) where
    pub turn-AllSafe :
        (n : ℕ) (xs : List X) (ps : List (Program A)) (w : World)
        → AllSafe I Q xs ps
        → I w
        → AllSafe I Q xs (turn n ps w).0 × I (turn n ps w).1
    unfolding turn
    turn-AllSafe n [] [] w s i = (s, i)
    turn-AllSafe zero (x ∷ xs) (p ∷ ps) w (s, rest) i =
        let (s', i') = advance-Safe (Q x) p w s i in ((s', rest), i')
    turn-AllSafe (suc n) (x ∷ xs) (p ∷ ps) w (s, rest) i =
        let (rest', i') = turn-AllSafe n xs ps w rest i in ((s, rest'), i')
    turn-AllSafe n [] (p ∷ ps) w s i = absurd s
    turn-AllSafe n (x ∷ xs) [] w s i = absurd s

    pub AllSafe-append :
        (xs : List X) (ps : List (Program A)) (x : X) (p : Program A)
        → AllSafe I Q xs ps
        → Safe I (Q x) p
        → AllSafe I Q (xs ++ x ∷ []) (ps ++ p ∷ [])
    AllSafe-append [] [] x p s t = (t, tt)
    AllSafe-append [] (q ∷ ps) x p s t = absurd s
    AllSafe-append (y ∷ xs) [] x p s t = absurd s
    AllSafe-append (y ∷ xs) (q ∷ ps) x p (s, rest) t = (s, AllSafe-append xs ps x p rest t)

    interleave-AllSafe :
        (is : List ℕ) (xs : List X) (ps : List (Program A)) (w : World)
        → AllSafe I Q xs ps
        → I w
        → AllSafe I Q xs (interleave is ps w).0 × I (interleave is ps w).1
    unfolding interleave
    interleave-AllSafe [] xs ps w s i = (s, i)
    interleave-AllSafe (n ∷ is) xs ps w s i =
        let (s', i') = turn-AllSafe n xs ps w s i in
        interleave-AllSafe is xs (turn n ps w).0 (turn n ps w).1 s' i'

    pub AllSafe-AllAnswered :
        (xs : List X) (ps : List (Program A)) → AllSafe I Q xs ps → AllAnswered Q xs ps
    AllSafe-AllAnswered [] [] s = tt
    AllSafe-AllAnswered [] (p ∷ ps) s = absurd s
    AllSafe-AllAnswered (x ∷ xs) [] s = absurd s
    AllSafe-AllAnswered (x ∷ xs) (ret a ∷ ps) (s, rest) = (s, AllSafe-AllAnswered xs ps rest)
    AllSafe-AllAnswered (x ∷ xs) (fail e ∷ ps) (s, rest) = (tt, AllSafe-AllAnswered xs ps rest)
    AllSafe-AllAnswered (x ∷ xs) (await m k ∷ ps) (s, rest) = (tt, AllSafe-AllAnswered xs ps rest)

    -- From a world with the invariant, safe programs keep it and answer as promised.
    pub interleave-AllAnswered :
        (is : List ℕ) (xs : List X) (ps : List (Program A)) (w : World)
        → AllSafe I Q xs ps
        → I w
        → AllAnswered Q xs (interleave is ps w).0 × I (interleave is ps w).1
    interleave-AllAnswered is xs ps w s i =
        let (s', i') = interleave-AllSafe is xs ps w s i in
        (AllSafe-AllAnswered xs (interleave is ps w).0 s', i')
