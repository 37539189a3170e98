-- ===== src/Handlers/Requests.antt =====
-- The requests of the versioned API, after backend/src/app.rs: which handler answers each, and what
-- a server that answers them leaves in the tables.
pub mod Sends
pub mod Awaits
use xend.Common.{List, [], ◌∷◌, Option}
use xend.Common.Text.{Text}
use xend.Runtime.{World, Host, M, pure, ◌>>=◌}
use xend.Runtime.Moves.{Moves, Moves-bind, Moves-pure}
use xend.Store.Ledger.{IsLedger}
use xend.Store.Steps.{Steps, done, Steps-trans, Steps-IsLedger}
use xend.Chain.Adapter.{ChainAdapter}
use xend.Chain.Adapter.Laws.{LeavesTables}
use xend.Crates.{Base64, Base58, Rfc3339}
use xend.Handlers.Tx.{
  SubmitRequest, SubmitResponse, BuildRequest, BuildResponse, StatusResponse, build, submit, status,
}
use xend.Handlers.Wallet.{
  RegisterWalletRequest, RegisterWalletResponse, BalanceResponse, HistoryQuery, HistoryResponse,
  ResolveResponse, register, balance, history, resolve,
}
use xend.Handlers.Statements.{
  RunsStatements, runs_preorder, submit-Runs, register-Runs, history-Runs, build-Runs, status-Runs,
  balance-Runs, resolve-Runs,
}

pub data Request : Type 0 where
  registers : RegisterWalletRequest → Request
  asks_balance : Text → Option Text → Request
  asks_history : Text → HistoryQuery → Request
  builds : BuildRequest → Request
  submits : SubmitRequest → Request
  asks_status : Text → Request
  resolves : Text → Request

pub data Response : Type 0 where
  registered : RegisterWalletResponse → Response
  has_balance : BalanceResponse → Response
  has_history : HistoryResponse → Response
  built : BuildResponse → Response
  submitted : SubmitResponse → Response
  has_status : StatusResponse → Response
  resolved : ResolveResponse → Response

-- The crates that the handlers call.
pub record Codecs : Type 0 where
  pub base64 : Base64
  pub base58 : Base58
  pub rfc3339 : Rfc3339

module _ (host : Host) (codecs : Codecs) (chain : ChainAdapter) where
  -- The handler of each route.
  unfoldable pub respond : Request → M Response
  respond (registers req) = do r ← register host codecs.base58 chain req; pure (registered r)
  respond (asks_balance pubkey mint) = do
    r ← balance host codecs.base58 chain pubkey mint
    pure (has_balance r)
  respond (asks_history pubkey query) = do
    r ← history host codecs.base58 chain codecs.rfc3339 pubkey query
    pure (has_history r)
  respond (builds req) = do r ← build host codecs.base64 chain req; pure (built r)
  respond (submits req) = do r ← submit host codecs.base64 chain req; pure (submitted r)
  respond (asks_status signature) = do
    r ← status host codecs.base64 chain signature
    pure (has_status r)
  respond (resolves name) = do r ← resolve host codecs.base58 chain name; pure (resolved r)

  -- The world after a request, whatever it was answered.
  unfoldable pub serve : Request → World → World
  serve r w = (respond r w).1

  unfoldable pub serve_all : List Request → World → World
  serve_all [] w = w
  serve_all (r ∷ rs) w = serve_all rs (serve r w)

  module _ (law : LeavesTables chain) where
    pub respond-Runs : (r : Request) → Moves RunsStatements (respond r)
    unfolding respond
    respond-Runs (registers req) =
        Moves-bind runs_preorder _ _ (register-Runs host codecs.base64 codecs.base58 chain law req)
          λ r. Moves-pure runs_preorder _
    respond-Runs (asks_balance pubkey mint) =
        Moves-bind runs_preorder _ _
          (balance-Runs host codecs.base64 codecs.base58 chain law pubkey mint)
          λ r. Moves-pure runs_preorder _
    respond-Runs (asks_history pubkey query) =
        Moves-bind runs_preorder _ _
          (history-Runs host codecs.base64 codecs.base58 chain law codecs.rfc3339 pubkey query)
          λ r. Moves-pure runs_preorder _
    respond-Runs (builds req) =
        Moves-bind runs_preorder _ _ (build-Runs host codecs.base64 codecs.base58 chain law req)
          λ r. Moves-pure runs_preorder _
    respond-Runs (submits req) =
        Moves-bind runs_preorder _ _ (submit-Runs host codecs.base64 codecs.base58 chain law req)
          λ r. Moves-pure runs_preorder _
    respond-Runs (asks_status signature) =
        Moves-bind runs_preorder _ _
          (status-Runs host codecs.base64 codecs.base58 chain law signature)
          λ r. Moves-pure runs_preorder _
    respond-Runs (resolves name) =
        Moves-bind runs_preorder _ _ (resolve-Runs host codecs.base64 codecs.base58 chain law name)
          λ r. Moves-pure runs_preorder _

    -- Whatever a request is and however it ends, it changes the tables only by statements of the
    -- store, one after the other, where the adapter leaves the tables.
    serve-Steps : (r : Request) (w : World) → Steps w.db (serve r w).db
    unfolding serve
    serve-Steps r w = (respond-Runs r).at w

    serve_all-Steps : (rs : List Request) (w : World) → Steps w.db (serve_all rs w).db
    unfolding serve_all
    serve_all-Steps [] w = done
    serve_all-Steps (r ∷ rs) w = Steps-trans (serve-Steps r w) (serve_all-Steps rs (serve r w))

    -- Any requests leave a ledger from a ledger: one row for each idempotency key, at most one row
    -- for each signature, one wallet for each public key, and no transaction of an unknown wallet.
    -- The requests may fail at any point, database faults included; the adapter leaves the tables.
    serve_all-IsLedger :
        (rs : List Request) (w : World) → IsLedger w.db → IsLedger (serve_all rs w).db
    serve_all-IsLedger rs w l = Steps-IsLedger (serve_all-Steps rs w) l
