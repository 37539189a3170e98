-- ===== src/Handlers/Requests/Awaits.antt =====
-- The handlers of backend/src/handlers, taken apart at their `.await`s: between two of them the
-- awaits of other requests may run. What comes before the first await, such as a check of the input,
-- runs with it.
pub mod Alone
pub mod Ends
pub mod Rules
pub mod Rows
pub mod Reads
pub mod Spends
use mathlib.Core.Option
use xend.Common.{ℕ, Option, none, some, ok_or, map, []}
use xend.Common.Decimal.{parse_u128, to_string}
use xend.Common.Text.{Text, text}
use xend.Error.{bad_request}
use xend.Runtime.{Host, new_uuid, run_sql}
use xend.Runtime.Program.{Program, ret, await, map_program, checked_then}
use xend.Store.Wallets.{find_id_by_pubkey, upsert_statement}
use xend.Store.Transactions.{list_for_wallet}
use xend.Chain.Adapter.{ChainAdapter}
use xend.Crates.{Rfc3339}
use xend.Handlers.Tx.{BuildRequest, BuildResponse, StatusResponse, seconds, commitment_name}
use xend.Handlers.Tx.Awaits.{submit_program}
use xend.Handlers.Wallet.{
  RegisterWalletRequest, RegisterWalletResponse, BalanceResponse, HistoryQuery, HistoryResponse,
  ResolveResponse, validate_solana_pubkey, limit_of, cursor_of, transaction_record,
}
use xend.Handlers.Requests.{
  Request, Response, registers, asks_balance, asks_history, builds, submits, asks_status, resolves,
  registered, has_balance, has_history, built, submitted, has_status, resolved, Codecs,
}

module _ (host : Host) (codecs : Codecs) (chain : ChainAdapter) where
  unfoldable pub build_program : BuildRequest → Program BuildResponse
  build_program req =
      checked_then
        (ok_or (parse_u128 req.amount) (bad_request (text "amount must be a base-unit integer")))
        λ amount.
          await
            (chain.build_transfer
              (record { from = req.from; to = req.to; amount = amount; mint = req.mint }))
            λ unsigned. ret (record {
              message = codecs.base64.encode unsigned.message;
              valid_until = seconds unsigned.valid_until;
              fee_payer_signature = Option.map codecs.base64.encode unsigned.fee_payer_signature;
            })

  unfoldable pub status_program : Text → Program StatusResponse
  status_program signature =
      await (chain.status signature)
        λ commitment. ret (record { signature = signature; status = commitment_name commitment })

  unfoldable pub register_program : RegisterWalletRequest → Program RegisterWalletResponse
  register_program req = checked_then (validate_solana_pubkey codecs.base58 req.pubkey) λ _.
      await (new_uuid host) λ id.
        await (run_sql host (upsert_statement id req.pubkey req.label))
          λ wallet_id. ret (record { wallet_id = wallet_id; pubkey = req.pubkey })

  unfoldable pub balance_program : Text → Option Text → Program BalanceResponse
  balance_program pubkey mint = checked_then (validate_solana_pubkey codecs.base58 pubkey) λ _.
      await (chain.balance pubkey mint)
        λ amount. ret (record { amount = to_string amount; mint = mint })

  unfoldable pub records_program : Option ℕ → ℕ → Option ℕ → Program HistoryResponse
  records_program none limit before = ret (record { transactions = [] })
  records_program (some wallet_id) limit before =
      await (list_for_wallet host wallet_id limit before)
        λ records. ret (record { transactions = map transaction_record records })

  unfoldable pub history_program : Text → HistoryQuery → Program HistoryResponse
  history_program pubkey query = checked_then (validate_solana_pubkey codecs.base58 pubkey) λ _.
      checked_then (cursor_of codecs.rfc3339 query.before) λ before.
        await (find_id_by_pubkey host pubkey)
          λ found. records_program found (limit_of query.limit) before

  unfoldable pub resolve_program : Text → Program ResolveResponse
  resolve_program name =
      await (chain.resolve_name name) λ address. ret (record { name = name; address = address })

  unfoldable pub respond_program : Request → Program Response
  respond_program (registers req) = map_program registered (register_program req)
  respond_program (asks_balance pubkey mint) = map_program has_balance (balance_program pubkey mint)
  respond_program (asks_history pubkey query) =
      map_program has_history (history_program pubkey query)
  respond_program (builds req) = map_program built (build_program req)
  respond_program (submits req) =
      map_program submitted (submit_program host codecs.base64 chain req)
  respond_program (asks_status signature) = map_program has_status (status_program signature)
  respond_program (resolves name) = map_program resolved (resolve_program name)
