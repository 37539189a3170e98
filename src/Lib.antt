-- ===== src/Lib.antt =====
-- A model of the backend of Xend, a wallet service that builds Solana transfers for a device to
-- sign, relays the signed transactions under idempotency keys, and keeps a ledger.
--
-- The parts, from the outside in. A request passes the gateway (`Gateway`): the rate limiter, then
-- the authentication. A handler (`Handlers`) parses it, runs statements on the database (`Store`),
-- and calls the active chain adapter (`Chain`), which posts JSON-RPC requests. Every error is a
-- value of one type (`Error`) that becomes the HTTP response.
--
--   Error                     backend/src/error.rs (AppError, public_message, into_response)
--   Store                     the tables of backend/migrations, and what a statement is
--   Store.Wallets             backend/src/store/wallets.rs
--   Store.Transactions        backend/src/store/transactions.rs
--   Handlers.Tx               backend/src/handlers/tx.rs (build, submit, status); `submit` is split
--                             at its two conditionals into `after_lookup`, `resume`, `claim` and
--                             `relay`
--   Handlers.Wallet           backend/src/handlers/wallet.rs, and resolve.rs beside it
--   Chain.Adapter             backend/src/chain/adapter.rs; `Laws` has what the handlers rely on
--   Chain.Solana              backend/src/chain/solana.rs: `Sdk` and `Json` for the crates it calls,
--                             `Instructions` for the encodings, `Rpc` for the reading of each
--                             answer, `Errors` for map_send_error, `Methods` for the trait's methods
--   Handlers.Requests         the handlers of the routes of backend/src/app.rs, as one function
--   Handlers.Tx.Awaits        submit of tx.rs again, taken apart at its awaits
--   Handlers.Requests.Awaits  the other handlers, taken apart in the same way
--   App                       router of backend/src/app.rs, with handlers/health.rs
--   App.Server                the router as axum serves it: requests arrive while others wait
--   Startup                   backend/src/main.rs, Gateway::from_env of gateway/mod.rs, and
--                             backend/src/bin/paymaster_keygen.rs
--   Startup.Process           the calls of main.rs from the settings on, db.rs and state.rs
--   Client                    backend/src/bin/gasless_client.rs: from the answer of `build` to the
--                             body of `submit`; `Client.Session` is its `main`
--   Gateway.Auth              backend/src/gateway/auth.rs, and the keys of gateway/mod.rs
--   Gateway.RateLimit         backend/src/gateway/rate_limit.rs
--   Gateway.Router            the middleware functions, request_id.rs, and their order in app.rs
--   Runtime                   what an async function runs on
--   Crates, Common            third-party crates, and the shared helpers
--   Tests                     runs on concrete values; `Units` has unit tests of the backend
--
-- State. A handler is an action `World → Result A AppError × World` of the monad in `Runtime`: the
-- world holds the tables, the log of the requests sent to the RPC, and a counter of the choices
-- that the environment has made. It comes back beside an error too, since the backend wraps nothing
-- in a transaction. A statement is a function on the tables that sees the time; at each step the
-- `Host` may make it fail with the statement applied or not, as a lost connection does. The times,
-- the uuids and the answers of the network are functions of the step. The proofs go along the
-- structure of an action: `Runtime.Moves` and `Runtime.Sends` have one rule for each way to build
-- one, and `Runtime.Success` inverts a run that returns.
--
-- Numbers. Amounts are u128 and u64 in the source: parsing stops at 2^128, the sum of token
-- balances saturates, the payloads write eight bytes little-endian, and the conversions to u64 and
-- u8 are checked; these bounds are written out. The count of a window is a u32 that never passes
-- the limit. Instants are nanoseconds, times of the tables microseconds. `to_string` runs on fuel
-- that is greater than the number, which has fewer digits than that. A text is the list of its
-- characters.
--
-- Parameters. The crates solana-sdk, bincode, serde_json, base64, bs58, chrono and the HTTP client
-- are records of functions that the definitions take; nothing is assumed of them except where a
-- theorem names it. SQL is modelled on the tables as lists, with the constraints of the migrations;
-- rows of one time keep the order of the table.
--
-- Composition. `App.router` puts the layers around the handlers, on the state of the process: the
-- limiter and the world. `Startup.settings` builds the adapter and the gateway from the environment,
-- and `Client.Session.main` talks to a server that is a function on a state, such as the
-- handlers over the Solana adapter.
--
-- Interleaving. `Store.Steps` has the sequences of statements that any number of requests run, in
-- any order; `Handlers.Statements` has each handler as such a sequence, and `Store.Phases` the
-- diagram of an idempotency key. `Runtime.Program` has programs that give up their turn at each
-- await, and schedules of such programs over one world. Each handler is such a program
-- (`Handlers.Tx.Awaits`, `Handlers.Requests.Awaits`), written from the lines of the handler with
-- its awaits marked. The state of `App.Server` is the limiter, the world, and what is left of each
-- request that arrived; an event is the arrival of a request, which passes the layers, or the next
-- await of one, which completes. So the time that an await itself waits, for one of the five
-- connections of the pool or for the network, is not part of the model, and neither is the wait
-- for the lock of the limiter. The awaits are the calls of the store and of the adapter, so the
-- requests to the RPC inside one call of the adapter stay together; the drawing of an id counts as
-- an await of its own, which only adds interleavings. A request that the client drops while it
-- waits is one that gets no more turns. `Runtime.Program.Delivers` and
-- `Handlers.Tx.Awaits.Sending` count what programs send that have not ended.
--
-- Start. `Startup.Process` logs the calls of sqlx, tokio and axum; what they answer is a parameter.
--
-- Not modelled: the waiting for the pool, what the migrations do to the database server, the
-- accepting of connections, the matching of paths and the decoding of JSON bodies, the HTTP client
-- of the gasless client, logging and printing on the way, and the packages in other languages. A
-- panic is modelled where the process starts and where a program reads its arguments; elsewhere,
-- such as that of the time plus 90 seconds at the end of the clock, it is not.
pub mod Common
pub mod Crates
pub mod Error
pub mod Store
pub mod Runtime
pub mod Chain
pub mod Handlers
pub mod Gateway
pub mod Client
pub mod App
pub mod Startup
pub mod Tests
