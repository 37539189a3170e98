-- ===== src/Handlers/Wallet/History.antt =====
-- What `history` answers.
use xend.Common.{ℕ, ◌≡◌, ◌≤◌, List, [], Option, none, some, map, arith}
use xend.Common.Int.{ℤ, pos, negsuc}
use xend.Common.Text.{Text}
use xend.Store.{Db, Wallet}
use xend.Store.Transactions.{Record}
use xend.Store.Transactions.History.{IsPage}
use xend.Handlers.Wallet.{HistoryResponse, transaction_record, limit_of}

-- The limit is the one that the request asks for, moved into 1..=100.
limit_of-bounds : (limit : Option ℤ) → (1 ≤ limit_of limit) × (limit_of limit ≤ 100)
unfolding limit_of
limit_of-bounds none = (omega arith, omega arith)
limit_of-bounds (some (pos n)) = (ground arith, ground arith)
limit_of-bounds (some (negsuc n)) = (ground arith, ground arith)

-- What the response shows, by the row of the key: a page of its wallet, or nothing.
abbrev pub Shows : Db → ℕ → Option ℕ → Option Wallet → HistoryResponse → Type 0
Shows db limit before none r = r.transactions ≡ []
Shows db limit before (some row) r =
    (records : List Record) × (r.transactions ≡ map transaction_record records)
    × IsPage row.id limit before db records
