-- ===== src/Runtime/Success.antt =====
-- What a successful run says of its parts.
use xend.Common.{suc, ◌≡◌, refl, ◌∙◌, Option, none, some, Result, ok, err, arith}
use xend.Common.Text.{Text}
use xend.Error.{AppError}
use xend.Store.{Db, Statement}
use xend.Runtime.{World, Host, Fault, M, pure, lift, ◌>>=◌, continue, run_sql, outcome}

-- A statement ran: it returned the result, and the world has its tables.
pub record Ran {A : Type 0} (host : Host) (st : Statement A) (w : World) (a : A) (w' : World)
    : Type 0 where
  pub returned : st (host.now w.step) w.db ≡ ok (a, w'.db)
  pub sent : w'.sent ≡ w.sent
  pub step : w'.step ≡ suc w.step

module _ {A B : Type 0} where
  continue-eq-ok :
      (p : Result A AppError × World) (f : A → M B) (b : B) (w' : World)
      → continue f p ≡ (ok b, w')
      → (a : A) × (v : World) × (p ≡ (ok a, v)) × (f a v ≡ (ok b, w'))
  continue-eq-ok (ok a, v) f b w' e = (a, v, refl, e)
  continue-eq-ok (err x, v) f b w' e = absurd (ground arith)

  -- A bind succeeds when both parts do.
  pub bind-eq-ok :
      (m : M A) (f : A → M B) (w : World) (b : B) (w' : World)
      → (m >>= f) w ≡ (ok b, w')
      → (a : A) × (v : World) × (m w ≡ (ok a, v)) × (f a v ≡ (ok b, w'))
  unfolding ◌>>=◌
  bind-eq-ok m f w b w' e = continue-eq-ok (m w) f b w' e

  -- The same, to go on with the parts as variables.
  pub on_success :
      {C : Type 0} (m : M A) (f : A → M B) (w : World) (b : B) (w' : World)
      → (m >>= f) w ≡ (ok b, w')
      → ((a : A) (v : World) → m w ≡ (ok a, v) → f a v ≡ (ok b, w') → C)
      → C
  on_success m f w b w' e k = let (a, v, p, q) = bind-eq-ok m f w b w' e in k a v p q

  -- A bind whose first part is known.
  pub bind_of_ok :
      (m : M A) (f : A → M B) (w : World) {a : A} {v : World}
      → m w ≡ (ok a, v)
      → (m >>= f) w ≡ f a v
  unfolding ◌>>=◌
  bind_of_ok m f w e = rw e

  -- A bind returns if its first part is known and the rest returns.
  pub bind_returns :
      (m : M A) (f : A → M B) (w : World) {a : A} {v u : World}
      → m w ≡ (ok a, v)
      → (b : B) × (f a v ≡ (ok b, u))
      → (b : B) × ((m >>= f) w ≡ (ok b, u))
  bind_returns m f w e (b, k) = (b, bind_of_ok m f w e ∙ k)

  pub bind_of_err :
      (m : M A) (f : A → M B) (w : World) {x : AppError} {v : World}
      → m w ≡ (err x, v)
      → (m >>= f) w ≡ (err x, v)
  unfolding ◌>>=◌
  bind_of_err m f w e = rw e

module _ {A : Type 0} where
  pub pure_returns : (a : A) (w : World) → (b : A) × (pure a w ≡ (ok b, w))
  unfolding pure
  pure_returns a w = (a, refl)

  pub pure-eq-ok : (a b : A) (w w' : World) → pure a w ≡ (ok b, w') → (a ≡ b) × (w ≡ w')
  unfolding pure
  pure-eq-ok a b w w' e = ground arith

  pub lift-eq-ok :
      (r : Result A AppError) (b : A) (w w' : World) → lift r w ≡ (ok b, w') → (r ≡ ok b) × (w ≡ w')
  unfolding lift
  lift-eq-ok r b w w' e = ground arith

  outcome-eq-ok :
      (host : Host) (st : Statement A) (w : World) (f : Option Fault) (r : Result (A × Db) Text)
      (a : A) (w' : World)
      → st (host.now w.step) w.db ≡ r
      → outcome w f r ≡ (ok a, w')
      → Ran host st w a w'
  outcome-eq-ok host st w none (ok (b, db)) a w' e h = ground arith
  outcome-eq-ok host st w none (err x) a w' e h = absurd (ground arith)
  outcome-eq-ok host st w (some f) r a w' e h = absurd (ground arith)

  pub run_sql-eq-ok :
      (host : Host) (st : Statement A) (w : World) (a : A) (w' : World)
      → run_sql host st w ≡ (ok a, w')
      → Ran host st w a w'
  unfolding run_sql
  run_sql-eq-ok host st w a w' e =
      outcome-eq-ok host st w (host.fault w.step) (st (host.now w.step) w.db) a w' refl e

  -- A statement that meets no fault.
  pub run_sql_of_ok :
      (host : Host) (st : Statement A) (w : World) {a : A} {db : Db}
      → host.fault w.step ≡ none
      → st (host.now w.step) w.db ≡ ok (a, db)
      → run_sql host st w ≡ (ok a, record w { db = db; step = suc w.step })
  unfolding run_sql
  run_sql_of_ok host st w h e = rw (h, e)
