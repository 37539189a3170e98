-- ===== src/Runtime.antt =====
-- What a handler runs on: the database, the requests that it has sent to the chain's RPC, and the
-- choices of the environment. An async function of the backend is an action of the monad `M`; the
-- state comes back beside an error too, since nothing is rolled back.
pub mod Moves
pub mod Success
pub mod Sends
pub mod Agrees
pub mod Program
use xend.Common.{ℕ, suc, Bool, true, false, List, ◌∷◌, Option, none, some, Result, ok, err}
use xend.Common.{if◌then◌else◌}
use xend.Common.Text.{Text}
use xend.Error.{AppError, database}
use xend.Store.{Db, Statement}

-- The JSON-RPC methods, named as in the field `method` of a request.
pub data Method : Type 0 where
  get_latest_blockhash send_transaction get_signature_statuses get_balance : Method
  get_token_accounts_by_owner get_token_supply get_account_info : Method

pub data Setting : Type 0 where
  named : Text → Setting
  flag : Bool → Setting

pub data Param : Type 0 where
  str : Text → Param
  strs : List Text → Param
  settings : List (Text × Setting) → Param

-- A JSON-RPC request; `"jsonrpc": "2.0"` and `"id": 1` are the same in all.
pub record RpcRequest : Type 0 where
  pub url : Text
  pub method : Method
  pub params : List Param

-- `sent` holds the requests handed to the HTTP client, the latest first. `step` counts the choices
-- that the environment has made.
pub record World : Type 0 where
  pub db : Db
  pub sent : List RpcRequest
  pub step : ℕ

-- A statement that fails for a reason outside the tables, such as a lost connection: it may or may
-- not have been applied.
pub record Fault : Type 0 where
  pub applied : Bool
  pub message : Text

-- What the environment chooses, at each step: whether the statement run there fails, the time in
-- microseconds since the epoch, and the next `Uuid::new_v4()` (as a number).
pub record Host : Type 0 where
  pub fault : ℕ → Option Fault
  pub now : ℕ → ℕ
  pub uuid : ℕ → ℕ

abbrev pub M : Type 0 → Type 0
M A = World → Result A AppError × World

module _ {A : Type 0} where
  unfoldable pub pure : A → M A
  pure a w = (ok a, w)

  unfoldable pub raise : AppError → M A
  raise e w = (err e, w)

  unfoldable pub lift : Result A AppError → M A
  lift r w = (r, w)

module _ {A B : Type 0} where
  abbrev pub continue : (A → M B) → Result A AppError × World → Result B AppError × World
  continue f (ok a, w) = f a w
  continue f (err e, w) = (err e, w)

  infixl 5 ◌>>=◌ ◌>>◌
  -- Opening this opens `pure`, `raise` and `lift` too.
  unfoldable pub ◌>>=◌ : M A → (A → M B) → M B
  unfolding pure raise lift
  ◌>>=◌ m f w = continue f (m w)

  abbrev pub ◌>>◌ : M A → M B → M B
  m >> n = m >>= λ _. n

abbrev pub advance : World → World
advance w = record w { step = suc w.step }

-- A uuid and the time are choices of the environment.
unfoldable pub new_uuid : Host → M ℕ
new_uuid host w = (ok (host.uuid w.step), advance w)

unfoldable pub system_time : Host → M ℕ
system_time host w = (ok (host.now w.step), advance w)

module _ {A : Type 0} where
  abbrev pub settle : World → Result (A × Db) Text → Result A AppError × World
  settle w (ok (a, db)) = (ok a, record w { db = db; step = suc w.step })
  settle w (err message) = (err (database message), advance w)

  abbrev pub tables_after : Db → Result (A × Db) Text → Db
  tables_after db (ok (a, db')) = db'
  tables_after db (err message) = db

  abbrev pub interrupt : World → Fault → Result (A × Db) Text → Result A AppError × World
  interrupt w f r = (
    err (database f.message),
    record w { db = if f.applied then tables_after w.db r else w.db; step = suc w.step },
  )

  abbrev pub outcome : World → Option Fault → Result (A × Db) Text → Result A AppError × World
  outcome w none r = settle w r
  outcome w (some f) r = interrupt w f r

  -- One statement through the pool.
  unfoldable pub run_sql : Host → Statement A → M A
  run_sql host statement w = outcome w (host.fault w.step) (statement (host.now w.step) w.db)
