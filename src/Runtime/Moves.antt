-- ===== src/Runtime/Moves.antt =====
-- What an action does to the world, whether it returns or fails, with one rule for each way to
-- build an action.
use xend.Common.{ℕ, suc, ◌≡◌, refl, Bool, true, false, Option, none, some, Result, ok, err}
use mathlib.Core.Path.{subst}
use xend.Common.Text.{Text}
use xend.Error.{AppError}
use xend.Store.{Db, Statement}
use xend.Runtime.{
  World, Host, Fault, M, pure, raise, lift, ◌>>=◌, continue, advance, new_uuid, system_time,
  run_sql, settle, interrupt, outcome,
}

pub record IsPreorder (R : World → World → Type 0) : Type 0 where
  pub reflexive : (w : World) → R w w
  pub transitive : (u v w : World) → R u v → R v w → R u w

-- Every run of `m` leads from a world to one that is related to it by `R`.
pub record Moves {A : Type 0} (R : World → World → Type 0) (m : M A) : Type 0 where
  pub at : (w : World) → R w (m w).1

module _ {R : World → World → Type 0} (p : IsPreorder R) where
  pub Moves-pure : {A : Type 0} (a : A) → Moves R (pure a)
  unfolding pure
  Moves-pure a = record { at = λ w. p.reflexive w }

  pub Moves-raise : {A : Type 0} (e : AppError) → Moves R (raise {A = A} e)
  unfolding raise
  Moves-raise e = record { at = λ w. p.reflexive w }

  pub Moves-lift : {A : Type 0} (r : Result A AppError) → Moves R (lift r)
  unfolding lift
  Moves-lift r = record { at = λ w. p.reflexive w }

  Moves-continue :
      {A B : Type 0} (w : World) (r : Result A AppError × World) (f : A → M B)
      → R w r.1
      → ((a : A) → Moves R (f a))
      → R w (continue f r).1
  Moves-continue w (ok a, w') f h k = p.transitive w w' (f a w').1 h ((k a).at w')
  Moves-continue w (err e, w') f h k = h

  pub Moves-bind :
      {A B : Type 0} (m : M A) (f : A → M B)
      → Moves R m
      → ((a : A) → Moves R (f a))
      → Moves R (m >>= f)
  unfolding ◌>>=◌
  Moves-bind m f h k = record { at = λ w. Moves-continue w (m w) f (h.at w) k }

-- A relation that does not see the counter of the environment's choices.
pub record IgnoresStep (R : World → World → Type 0) : Type 0 where
  pub ticks : (w : World) → R w (advance w)

module _ {R : World → World → Type 0} (i : IgnoresStep R) (host : Host) where
  pub Moves-new_uuid : Moves R (new_uuid host)
  unfolding new_uuid
  Moves-new_uuid = record { at = i.ticks }

  pub Moves-system_time : Moves R (system_time host)
  unfolding system_time
  Moves-system_time = record { at = i.ticks }

-- Whenever the statement returns, the world with the tables that it leaves is related by `R`.
pub record Writes {A : Type 0} (R : World → World → Type 0) (statement : Statement A) : Type 0 where
  pub along :
      (now : ℕ) (w : World) (a : A) (db : Db)
      → statement now w.db ≡ ok (a, db)
      → R w (record w { db = db; step = suc w.step })

module _ {R : World → World → Type 0} (i : IgnoresStep R) where
  Moves-settle :
      {A : Type 0} (w : World) (r : Result (A × Db) Text)
      → ((a : A) (db : Db) → r ≡ ok (a, db) → R w (record w { db = db; step = suc w.step }))
      → R w (settle w r).1
  Moves-settle w (ok (a, db)) h = h a db refl
  Moves-settle w (err message) h = i.ticks w

  Moves-interrupt :
      {A : Type 0} (w : World) (applied : Bool) (message : Text) (r : Result (A × Db) Text)
      → ((a : A) (db : Db) → r ≡ ok (a, db) → R w (record w { db = db; step = suc w.step }))
      → R w (interrupt w (record { applied = applied; message = message }) r).1
  Moves-interrupt w true message (ok (a, db)) h = h a db refl
  Moves-interrupt w true message (err e) h = i.ticks w
  Moves-interrupt w false message r h = i.ticks w

  Moves-outcome :
      {A : Type 0} (w : World) (fault : Option Fault) (r : Result (A × Db) Text)
      → ((a : A) (db : Db) → r ≡ ok (a, db) → R w (record w { db = db; step = suc w.step }))
      → R w (outcome w fault r).1
  Moves-outcome w none r h = Moves-settle w r h
  Moves-outcome w (some f) r h = Moves-interrupt w f.applied f.message r h

  -- With faults or without, a statement moves the world along `R` if its writes do.
  pub Moves-run_sql :
      {A : Type 0} (host : Host) (statement : Statement A)
      → Writes R statement
      → Moves R (run_sql host statement)
  unfolding run_sql
  Moves-run_sql host statement k = record {
    at = λ w.
        Moves-outcome w (host.fault w.step) (statement (host.now w.step) w.db)
          (k.along (host.now w.step) w);
  }

-- A run of a known outcome.
pub Moves-run :
    {A : Type 0} {R : World → World → Type 0} {m : M A} {w v : World} {r : Result A AppError}
    → Moves R m
    → m w ≡ (r, v)
    → R w v
Moves-run {R} {w} h e = subst (λ p. R w p.1) e (h.at w)
