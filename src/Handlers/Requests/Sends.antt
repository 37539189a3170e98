-- ===== src/Handlers/Requests/Sends.antt =====
-- How many transactions a request sends.
use xend.Common.{ℕ, ◌+◌, ◌≤◌, Option, none, some, arith}
use xend.Runtime.{Host, World, M, ◌>>=◌}
use xend.Runtime.Moves.{Moves, Moves-bind, Moves-pure, Moves-lift, Moves-new_uuid}
use xend.Runtime.Sends.{
  sends, SameSends, SameSends-IsPreorder, SameSends-IgnoresStep, SameSends-run_sql, SendsAtMost,
  SendsAtMost-bind, SendsAtMost_of_SameSends, SendsAtMost_mono,
}
use xend.Store.Wallets.{upsert, find_id_by_pubkey}
use xend.Store.Transactions.{list_for_wallet}
use xend.Chain.Adapter.{ChainAdapter}
use xend.Chain.Adapter.Laws.{SendsOnBroadcast}
use xend.Handlers.Tx.{build, status}
use xend.Handlers.Tx.Once.{submit-SendsAtMost}
use xend.Handlers.Wallet.{register, balance, history, records_of, resolve}
use xend.Handlers.Requests.{
  Request, registers, asks_balance, asks_history, builds, submits, asks_status, resolves, Codecs,
  respond, serve,
}

module _ (host : Host) (codecs : Codecs) (chain : ChainAdapter) (law : SendsOnBroadcast chain) where
  records_of-SameSends :
      (o : Option ℕ) (limit : ℕ) (before : Option ℕ)
      → Moves SameSends (records_of host codecs.base58 chain o limit before)
  unfolding records_of list_for_wallet
  records_of-SameSends none limit before = Moves-pure SameSends-IsPreorder _
  records_of-SameSends (some id) limit before =
      Moves-bind SameSends-IsPreorder _ _ (SameSends-run_sql host _)
        λ records. Moves-pure SameSends-IsPreorder _

  quiet :
      {A B : Type 0} (m : M A) (f : A → M B)
      → Moves SameSends m
      → ((a : A) → Moves SameSends (f a))
      → SendsAtMost 1 (m >>= f)
  quiet m f h k =
      SendsAtMost_mono 0 1 _ (omega arith)
        (SendsAtMost_of_SameSends _ (Moves-bind SameSends-IsPreorder m f h k))

  pub respond-SendsAtMost : (r : Request) → SendsAtMost 1 (respond host codecs chain r)
  unfolding respond register upsert balance history find_id_by_pubkey build status resolve
  respond-SendsAtMost (registers req) =
      quiet _ _
        (Moves-bind SameSends-IsPreorder _ _ (Moves-lift SameSends-IsPreorder _) λ _.
          Moves-bind SameSends-IsPreorder _ _
            (Moves-bind SameSends-IsPreorder _ _ (Moves-new_uuid SameSends-IgnoresStep host)
              λ id. SameSends-run_sql host _)
            λ id. Moves-pure SameSends-IsPreorder _)
        (λ r. Moves-pure SameSends-IsPreorder _)
  respond-SendsAtMost (asks_balance pubkey mint) =
      quiet _ _
        (Moves-bind SameSends-IsPreorder _ _ (Moves-lift SameSends-IsPreorder _) λ _.
          Moves-bind SameSends-IsPreorder _ _ (law.balance pubkey mint)
            λ a. Moves-pure SameSends-IsPreorder _)
        (λ r. Moves-pure SameSends-IsPreorder _)
  respond-SendsAtMost (asks_history pubkey query) =
      quiet _ _
        (Moves-bind SameSends-IsPreorder _ _ (Moves-lift SameSends-IsPreorder _) λ _.
          Moves-bind SameSends-IsPreorder _ _ (Moves-lift SameSends-IsPreorder _) λ before.
            Moves-bind SameSends-IsPreorder _ _ (SameSends-run_sql host _)
              λ found. records_of-SameSends found _ before)
        (λ r. Moves-pure SameSends-IsPreorder _)
  respond-SendsAtMost (builds req) =
      quiet _ _
        (Moves-bind SameSends-IsPreorder _ _ (Moves-lift SameSends-IsPreorder _) λ amount.
          Moves-bind SameSends-IsPreorder _ _ (law.build_transfer _)
            λ tx. Moves-pure SameSends-IsPreorder _)
        (λ r. Moves-pure SameSends-IsPreorder _)
  respond-SendsAtMost (submits req) =
      SendsAtMost-bind 1 0 _ _ (submit-SendsAtMost host codecs.base64 chain law req)
        λ r. SendsAtMost_of_SameSends _ (Moves-pure SameSends-IsPreorder _)
  respond-SendsAtMost (asks_status signature) =
      quiet _ _
        (Moves-bind SameSends-IsPreorder _ _ (law.status signature)
          λ c. Moves-pure SameSends-IsPreorder _)
        (λ r. Moves-pure SameSends-IsPreorder _)
  respond-SendsAtMost (resolves name) =
      quiet _ _
        (Moves-bind SameSends-IsPreorder _ _ (law.resolve_name name)
          λ a. Moves-pure SameSends-IsPreorder _)
        (λ r. Moves-pure SameSends-IsPreorder _)

  -- A request sends one transaction at most.
  serve-sends-le :
      (r : Request) (w : World) → sends (serve host codecs chain r w).sent ≤ 1 + sends w.sent
  unfolding serve
  serve-sends-le r w = (respond-SendsAtMost r).at w
