-- ===== src/Handlers/Wallet.antt =====
-- backend/src/handlers/wallet.rs and backend/src/handlers/resolve.rs
pub mod History
pub mod Register
use mathlib.Core.Option
use xend.Common.{
  ℕ, List, [], Option, none, some, Result, ok, err, ◌++◌, map, length, ok_or, ◌==◌, if◌then◌else◌,
}
use xend.Common.Int.{ℤ, pos, negsuc, clamp}
use xend.Common.Text.{Text, text}
use xend.Common.Decimal.{to_string}
use xend.Common.Bytes.{Bytes}
use xend.Crates.{Base58, Rfc3339}
use xend.Error.{AppError, bad_request}
use xend.Runtime.{Host, M, pure, lift, ◌>>=◌, ◌>>◌}
use xend.Store.Wallets.{upsert, find_id_by_pubkey}
use xend.Store.Transactions.{Record, list_for_wallet}
use xend.Chain.Adapter.{ChainAdapter}

pub record RegisterWalletRequest : Type 0 where
  pub pubkey : Text
  pub label : Option Text

pub record RegisterWalletResponse : Type 0 where
  pub wallet_id : ℕ
  pub pubkey : Text

pub record BalanceResponse : Type 0 where
  pub amount : Text
  pub mint : Option Text

-- `limit` is an `i64`.
pub record HistoryQuery : Type 0 where
  pub limit : Option ℤ
  pub before : Option Text

pub record TransactionRecord : Type 0 where
  pub signature : Text
  pub status : Text
  pub to : Option Text
  pub amount : Option Text
  pub mint : Option Text
  pub created_at : ℕ

pub record HistoryResponse : Type 0 where
  pub transactions : List TransactionRecord

pub record ResolveResponse : Type 0 where
  pub name : Text
  pub address : Text

abbrev pub check_length : ℕ → Result (Unit {0}) AppError
check_length n =
    if n == 32
    then ok tt
    else err (bad_request (text "pubkey must decode to 32 bytes, got " ++ to_string n))

abbrev pub check_decoded : Option Bytes → Result (Unit {0}) AppError
check_decoded none = err (bad_request (text "pubkey is not valid base58"))
check_decoded (some decoded) = check_length (length decoded)

unfoldable pub validate_solana_pubkey : Base58 → Text → Result (Unit {0}) AppError
validate_solana_pubkey base58 pubkey = check_decoded (base58.decode pubkey)

-- `unwrap_or(20)`.
abbrev pub requested : Option ℤ → ℤ
requested none = pos 20
requested (some n) = n

-- What `limit` in SQL takes; a clamped limit is not negative.
abbrev pub row_count : ℤ → ℕ
row_count (pos n) = n
row_count (negsuc n) = 0

unfoldable pub limit_of : Option ℤ → ℕ
limit_of limit = row_count (clamp (requested limit) (pos 1) (pos 100))

unfoldable pub cursor_of : Rfc3339 → Option Text → Result (Option ℕ) AppError
cursor_of rfc3339 none = ok none
cursor_of rfc3339 (some cursor) = elim (rfc3339.parse cursor) [
  | none ↦ err (bad_request (text "before must be an RFC3339 timestamp"))
  | some time ↦ ok (some time)
]

abbrev pub transaction_record : Record → TransactionRecord
transaction_record r = record {
  signature = r.signature;
  status = r.status;
  to = r.to_address;
  amount = r.amount;
  mint = r.mint;
  created_at = r.created_at;
}

module _ (host : Host) (base58 : Base58) (chain : ChainAdapter) where
  unfoldable pub register : RegisterWalletRequest → M RegisterWalletResponse
  register req = do
    lift (validate_solana_pubkey base58 req.pubkey)
    wallet_id ← upsert host req.pubkey req.label
    pure (record { wallet_id = wallet_id; pubkey = req.pubkey })

  unfoldable pub balance : Text → Option Text → M BalanceResponse
  balance pubkey mint = do
    lift (validate_solana_pubkey base58 pubkey)
    amount ← chain.balance pubkey mint
    pure (record { amount = to_string amount; mint = mint })

  -- A wallet that is not registered has no history.
  unfoldable pub records_of : Option ℕ → ℕ → Option ℕ → M HistoryResponse
  records_of none limit before = pure (record { transactions = [] })
  records_of (some wallet_id) limit before = do
    records ← list_for_wallet host wallet_id limit before
    pure (record { transactions = map transaction_record records })

  unfoldable pub history : Rfc3339 → Text → HistoryQuery → M HistoryResponse
  history rfc3339 pubkey query = do
    lift (validate_solana_pubkey base58 pubkey)
    before ← lift (cursor_of rfc3339 query.before)
    found ← find_id_by_pubkey host pubkey
    records_of found (limit_of query.limit) before

  unfoldable pub resolve : Text → M ResolveResponse
  resolve name = do
    address ← chain.resolve_name name
    pure (record { name = name; address = address })
