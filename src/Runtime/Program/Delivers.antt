-- ===== src/Runtime/Program/Delivers.antt =====
-- Programs that send an exact number of transactions before they can end.
use xend.Common.{
  ℕ, zero, suc, ◌+◌, ◌<◌, length, ◌≡◌, ◌⊎◌, inl, inr, refl, ap, ◌∙◌, List, [], ◌∷◌, some, Result,
  ok, err, arith,
}
use xend.Error.{AppError}
use xend.Runtime.{World}
use xend.Runtime.Sends.{sends}
use xend.Runtime.Program.Turns.{outcome_at}
use xend.Runtime.Program.{
  Program, ret, fail, await, advance, resume_with, turn, interleave, outcome_of,
}

-- From worlds with the invariant, each await keeps it; the awaits that are left send `n`
-- transactions, and none of them fails before these are sent.
abbrev pub Delivers : {A : Type 0} → (World → Type 0) → Program A → ℕ → Type 0
Delivers I (ret a) n = n ≡ 0
Delivers I (fail e) n = n ≡ 0
Delivers I (await {B} m k) n =
    (w : World)
    → I w
    → (cost rest : ℕ) × (cost + rest ≡ n)
      × (sends (m w).1.sent ≡ cost + sends w.sent)
      × I (m w).1
      × ((rest ≡ 0) ⊎ ((b : B) × ((m w).0 ≡ ok b)))
      × ((b : B) → (m w).0 ≡ ok b → Delivers I (k b) rest)

abbrev pub AllDeliver : {A : Type 0} → (World → Type 0) → List (Program A) → ℕ → Type 0
AllDeliver I [] n = n ≡ 0
AllDeliver I (p ∷ ps) n =
    (own rest : ℕ) × (own + rest ≡ n) × Delivers I p own × AllDeliver I ps rest

-- All have ended.
abbrev pub AllEnded : {A : Type 0} → List (Program A) → Type 0
AllEnded [] = Unit
AllEnded (p ∷ ps) = ((r : Result _ AppError) × (outcome_of p ≡ some r)) × AllEnded ps

module _ {A : Type 0} (I : World → Type 0) where
  resume-Delivers :
      {B : Type 0} (n : ℕ) (k : B → Program A) (r : Result B AppError)
      → (n ≡ 0) ⊎ ((b : B) × (r ≡ ok b))
      → ((b : B) → r ≡ ok b → Delivers I (k b) n)
      → Delivers I (resume_with k r) n
  resume-Delivers n k (ok b) c h = h b refl
  resume-Delivers n k (err e) (inl zero_left) h = zero_left
  resume-Delivers n k (err e) (inr (b, p)) h = absurd (ground arith)

  advance-Delivers :
      (n : ℕ) (p : Program A) (w : World)
      → Delivers I p n
      → I w
      → (cost rest : ℕ) × (cost + rest ≡ n)
        × (sends (advance p w).1.sent ≡ cost + sends w.sent)
        × I (advance p w).1
        × Delivers I (advance p w).0 rest
  unfolding advance
  advance-Delivers n (ret a) w h i = (0, n, omega arith, omega arith, i, h)
  advance-Delivers n (fail e) w h i = (0, n, omega arith, omega arith, i, h)
  advance-Delivers n (await m k) w h i =
      let (cost, rest, le, sent, kept, goes_on, after) = h w i in
      (cost, rest, le, sent, kept, resume-Delivers rest k (m w).0 goes_on after)

  turn-AllDeliver :
      (i n : ℕ) (ps : List (Program A)) (w : World)
      → AllDeliver I ps n
      → I w
      → (cost rest : ℕ) × (cost + rest ≡ n)
        × (sends (turn i ps w).1.sent ≡ cost + sends w.sent)
        × I (turn i ps w).1
        × AllDeliver I (turn i ps w).0 rest
  unfolding turn
  turn-AllDeliver i n [] w h inv = (0, n, omega arith, omega arith, inv, h)
  turn-AllDeliver zero n (p ∷ ps) w (own, others, le, h, all) inv =
      let (cost, rest, fits, sent, kept, h') = advance-Delivers own p w h inv in
      (
        cost,
        rest + others,
        omega (arith, le, fits),
        sent,
        kept,
        (rest, others, omega arith, h', all),
      )
  turn-AllDeliver (suc i) n (p ∷ ps) w (own, others, le, h, all) inv =
      let (cost, rest, fits, sent, kept, all') = turn-AllDeliver i others ps w all inv in
      (cost, own + rest, omega (arith, le, fits), sent, kept, (own, rest, omega arith, h, all'))

  ended-Delivers :
      (n : ℕ) (p : Program A) (r : Result A AppError)
      → outcome_of p ≡ some r
      → Delivers I p n
      → n ≡ 0
  ended-Delivers n (ret a) r e h = h
  ended-Delivers n (fail x) r e h = h
  ended-Delivers n (await m k) r e h = absurd (ground arith)

  ended-AllDeliver : (n : ℕ) (ps : List (Program A)) → AllEnded ps → AllDeliver I ps n → n ≡ 0
  ended-AllDeliver n [] e h = h
  ended-AllDeliver n (p ∷ ps) ((r, e), rest_ended) (own, rest, le, h, all) =
      omega (arith, le, ended-Delivers own p r e h, ended-AllDeliver rest ps rest_ended all)

  -- Programs that have all ended after a schedule have sent what they had to.
  pub interleave-AllDeliver :
      (schedule : List ℕ) (n : ℕ) (ps : List (Program A)) (w : World)
      → AllDeliver I ps n
      → I w
      → AllEnded (interleave schedule ps w).0
      → sends (interleave schedule ps w).1.sent ≡ n + sends w.sent
  unfolding interleave
  interleave-AllDeliver [] n ps w h inv e = omega (arith, ended-AllDeliver n ps e h)
  interleave-AllDeliver (i ∷ schedule) n ps w h inv e =
      let (cost, rest, fits, sent, kept, h') = turn-AllDeliver i n ps w h inv in
      let (ps', w') = turn i ps w in
      omega (arith, fits, sent, interleave-AllDeliver schedule rest ps' w' h' kept e)

module _ {A : Type 0} where
  length-turn : (i : ℕ) (ps : List (Program A)) (w : World) → length (turn i ps w).0 ≡ length ps
  unfolding turn
  length-turn i [] w = refl
  length-turn zero (p ∷ ps) w = refl
  length-turn (suc i) (p ∷ ps) w = ap suc (length-turn i ps w)

  pub length-interleave :
      (schedule : List ℕ) (ps : List (Program A)) (w : World)
      → length (interleave schedule ps w).0 ≡ length ps
  unfolding interleave
  length-interleave [] ps w = refl
  length-interleave (i ∷ schedule) ps w =
      length-interleave schedule (turn i ps w).0 (turn i ps w).1 ∙ length-turn i ps w

  pub each-AllEnded :
      (ps : List (Program A))
      → ((i : ℕ) → i < length ps → (r : Result A AppError) × (outcome_at i ps ≡ some r))
      → AllEnded ps
  each-AllEnded [] h = tt
  each-AllEnded (p ∷ ps) h = (h 0 (omega arith), each-AllEnded ps (λ i lt. h (suc i) (omega arith)))
