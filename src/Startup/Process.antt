-- ===== src/Startup/Process.antt =====
-- backend/src/main.rs from the settings on, backend/src/db.rs and backend/src/state.rs: the calls
-- that a process makes of sqlx, tokio and axum until it serves, in their order. What those libraries
-- answer is a parameter.
pub mod Order
use xend.Common.{ℕ, List, [], ◌∷◌, ◌++◌, Option, none, some, Result, ok, err}
use xend.Common.Text.{Text}
use xend.Chain.Solana.Sdk.{Sdk}
use xend.Chain.Solana.Methods.{SolanaAdapter}
use xend.Startup.{Environment, Keypairs, Gateway, Settings, settings}

abbrev pub max_connections : ℕ
max_connections = 5

pub data Call : Type 0 where
  connects : ℕ → Text → Call
  migrates : Call
  binds : Text → Call
  serves : Call

-- How a process or a part of it stops: by a panic, or by an error that `main` returns.
pub data Stop : Type 0 where
  panicked : Stop
  failed : Text → Stop

-- The calls so far, the first one first.
abbrev pub Io : Type 0 → Type 0
Io A = List Call → Result A Stop × List Call

module _ {A : Type 0} where
  unfoldable pub pure : A → Io A
  pure a calls = (ok a, calls)

  unfoldable pub stop : Stop → Io A
  stop s calls = (err s, calls)

  abbrev pub reported : Result A Text → Result A Stop
  reported (ok a) = ok a
  reported (err message) = err (failed message)

  -- A call, and what the library answers.
  unfoldable pub perform : Call → Result A Text → Io A
  perform c answer calls = (reported answer, calls ++ c ∷ [])

module _ {A B : Type 0} where
  abbrev pub after : (A → Io B) → Result A Stop × List Call → Result B Stop × List Call
  after f (ok a, calls) = f a calls
  after f (err s, calls) = (err s, calls)

  infixl 5 ◌>>=◌
  unfoldable pub ◌>>=◌ : Io A → (A → Io B) → Io B
  unfolding pure stop
  ◌>>=◌ m f calls = after f (m calls)

module _ (sdk : Sdk) where
  -- The adapter stands for the `Arc<dyn ChainAdapter>`.
  pub record AppState (Pool : Type 0) : Type 0 where
    pub pool : Pool
    pub chain : SolanaAdapter sdk

  -- What sqlx, tokio and axum answer.
  pub record Libraries (Pool Listener : Type 0) : Type 0 where
    pub connect : ℕ → Text → Result Pool Text
    pub migrate : Pool → Result (Unit {0}) Text
    pub bind : Text → Result Listener Text
    pub serve : Listener → AppState Pool → Gateway → Result (Unit {0}) Text

  module _ {Pool Listener : Type 0} (libraries : Libraries Pool Listener) where
    -- `connect` of db.rs.
    unfoldable pub connect : Text → Io Pool
    connect url = do
      pool ← perform (connects max_connections url) (libraries.connect max_connections url)
      u ← perform migrates (libraries.migrate pool)
      pure pool

    unfoldable pub main_with : Settings sdk → Io (Unit {0})
    main_with settings = do
      pool ← connect settings.db_url
      listener ← perform (binds settings.addr) (libraries.bind settings.addr)
      perform serves (
          libraries.serve listener (record { pool = pool; chain = settings.adapter })
            settings.gateway)

    abbrev main_of : Option (Settings sdk) → Io (Unit {0})
    main_of none = stop panicked
    main_of (some settings) = main_with settings

    unfoldable pub main : Keypairs sdk → Environment → Io (Unit {0})
    main keypairs env = main_of (settings sdk keypairs env)
