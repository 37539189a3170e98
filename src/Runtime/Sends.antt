-- ===== src/Runtime/Sends.antt =====
-- How many transactions an action sends to the network.
use xend.Common.{ℕ, ◌+◌, ◌≤◌, List, [], ◌∷◌, arith, Result, ok, err}
use xend.Common.{◌≡◌, refl, ◌∙◌}
use xend.Runtime.Moves.{Moves, IsPreorder, IgnoresStep, Moves-run_sql}
use xend.Error.{AppError}
use xend.Store.{Statement}
use xend.Runtime.{Method, send_transaction, RpcRequest, World, Host, M, ◌>>=◌, continue, run_sql}

abbrev pub sends_of : Method → ℕ
sends_of send_transaction = 1
sends_of other = 0

-- The number of `sendTransaction` requests.
unfoldable pub sends : List RpcRequest → ℕ
sends [] = 0
sends (r ∷ rs) = sends_of r.method + sends rs

-- No transaction is sent.
abbrev pub SameSends : World → World → Type 0
SameSends u v = sends v.sent ≡ sends u.sent

pub SameSends-IsPreorder : IsPreorder SameSends
SameSends-IsPreorder = record { reflexive = λ w. refl; transitive = λ u v w p q. q ∙ p }

pub SameSends-IgnoresStep : IgnoresStep SameSends
SameSends-IgnoresStep = record { ticks = λ w. refl }

-- No statement sends anything.
pub SameSends-run_sql :
    {A : Type 0} (host : Host) (st : Statement A) → Moves SameSends (run_sql host st)
SameSends-run_sql host st =
    Moves-run_sql SameSends-IgnoresStep host st (record { along = λ now w a db e. refl })

-- The action sends at most `n` transactions, whether it returns or fails.
pub record SendsAtMost {A : Type 0} (n : ℕ) (m : M A) : Type 0 where
  pub at : (w : World) → sends (m w).1.sent ≤ n + sends w.sent

pub SendsAtMost_of_SameSends : {A : Type 0} (m : M A) → Moves SameSends m → SendsAtMost 0 m
SendsAtMost_of_SameSends m h = record { at = λ w. omega (arith, h.at w) }

SendsAtMost-continue :
    {A B : Type 0} (n k s : ℕ) (r : Result A AppError × World) (f : A → M B)
    → sends r.1.sent ≤ n + s
    → ((a : A) → SendsAtMost k (f a))
    → sends (continue f r).1.sent ≤ n + k + s
SendsAtMost-continue n k s (ok a, w) f h g = omega (arith, (g a).at w)
SendsAtMost-continue n k s (err e, w) f h g = omega arith

pub SendsAtMost-bind :
    {A B : Type 0} (n k : ℕ) (m : M A) (f : A → M B)
    → SendsAtMost n m
    → ((a : A) → SendsAtMost k (f a))
    → SendsAtMost (n + k) (m >>= f)
unfolding ◌>>=◌
SendsAtMost-bind n k m f h g = record {
  at = λ w. SendsAtMost-continue n k (sends w.sent) (m w) f (h.at w) g;
}

-- A sequence of which only the rest sends.
pub SendsAtMost-then :
    {A B : Type 0} (k : ℕ) (m : M A) (f : A → M B)
    → Moves SameSends m
    → ((a : A) → SendsAtMost k (f a))
    → SendsAtMost k (m >>= f)
SendsAtMost-then k m f h g = record {
  at = λ w. omega (arith, (SendsAtMost-bind 0 k m f (SendsAtMost_of_SameSends m h) g).at w);
}

pub SendsAtMost_mono : {A : Type 0} (n k : ℕ) (m : M A) → n ≤ k → SendsAtMost n m → SendsAtMost k m
SendsAtMost_mono n k m le h = record { at = λ w. omega (arith, h.at w) }
