-- ===== src/Runtime/Program/Succeeds.antt =====
-- Programs that share a world and cannot fail in it.
use xend.Common.{
  ℕ, zero, suc, ◌≤◌, ◌<◌, ◌≡◌, ap, ◌∙◌, List, [], ◌∷◌, All, some, Result, ok, arith, length,
}
use xend.Error.{AppError}
use xend.Runtime.{World}
use xend.Runtime.Program.{Program, ret, fail, await, advance, turn, interleave}
use xend.Runtime.Program.Turns.{AllEndWithin, turns_of, outcome_at, interleave_ends}

-- From any world with the invariant each await returns, and keeps it; the answer is as promised.
abbrev pub Succeeds : {A : Type 0} → (World → Type 0) → (A → Type 0) → Program A → Type 0
Succeeds I Q (ret a) = Q a
Succeeds I Q (fail e) = ⊥
Succeeds I Q (await {B} m k) =
    (w : World) → I w → (b : B) × (w' : World) × (m w ≡ (ok b, w')) × I w' × Succeeds I Q (k b)

module _ {A : Type 0} (I : World → Type 0) (Q : A → Type 0) where
  pub advance-Succeeds :
      (p : Program A) (w : World)
      → Succeeds I Q p
      → I w
      → Succeeds I Q (advance p w).0 × I (advance p w).1
  unfolding advance
  advance-Succeeds (ret a) w s i = (s, i)
  advance-Succeeds (fail e) w s i = absurd s
  advance-Succeeds (await m k) w s i = let (b, w', e, kept, rest) = s w i in rw e (rest, kept)

  turn-Succeeds :
      (n : ℕ) (ps : List (Program A)) (w : World)
      → All (Succeeds I Q) ps
      → I w
      → All (Succeeds I Q) (turn n ps w).0 × I (turn n ps w).1
  unfolding turn
  turn-Succeeds n [] w s i = (s, i)
  turn-Succeeds zero (p ∷ ps) w (s, rest) i =
      let (s', i') = advance-Succeeds p w s i in ((s', rest), i')
  turn-Succeeds (suc n) (p ∷ ps) w (s, rest) i =
      let (rest', i') = turn-Succeeds n ps w rest i in ((s, rest'), i')

  interleave-Succeeds :
      (schedule : List ℕ) (ps : List (Program A)) (w : World)
      → All (Succeeds I Q) ps
      → I w
      → All (Succeeds I Q) (interleave schedule ps w).0
  unfolding interleave
  interleave-Succeeds [] ps w s i = s
  interleave-Succeeds (n ∷ schedule) ps w s i =
      let (s', i') = turn-Succeeds n ps w s i in
      interleave-Succeeds schedule (turn n ps w).0 (turn n ps w).1 s' i'

  success_at :
      (i : ℕ) (ps : List (Program A)) (r : Result A AppError)
      → All (Succeeds I Q) ps
      → outcome_at i ps ≡ some r
      → (a : A) × (r ≡ ok a) × Q a
  success_at i [] r s e = absurd (ground arith)
  success_at zero (ret a ∷ ps) r (s, rest) e = (a, ground arith, s)
  success_at zero (fail x ∷ ps) r (s, rest) e = absurd s
  success_at zero (await m k ∷ ps) r s e = absurd (ground arith)
  success_at (suc i) (p ∷ ps) r (s, rest) e = success_at i ps r rest e

  -- A program that cannot fail and needs at most `n` awaits has answered as promised once it had `n`
  -- turns.
  pub interleave_completes :
      (n i : ℕ) (schedule : List ℕ) (ps : List (Program A)) (w : World)
      → All (Succeeds I Q) ps
      → I w
      → AllEndWithin n ps
      → i < length ps
      → n ≤ turns_of i schedule
      → (a : A) × (outcome_at i (interleave schedule ps w).0 ≡ some (ok a)) × Q a
  interleave_completes n i schedule ps w s inv ends lt le =
      let (r, ended) = interleave_ends n i schedule ps w ends lt le in
      let (a, e, q) =
        success_at i (interleave schedule ps w).0 r (interleave-Succeeds schedule ps w s inv)
          ended in
      (a, ended ∙ ap some e, q)
