-- ===== src/Store.antt =====
-- backend/src/store and backend/migrations: the tables of the database and the statements that the
-- backend runs on them. A statement sees the time of its transaction (`now()`), and either returns
-- its rows with the new tables or fails with the message of the database.
pub mod Wallets
pub mod Ledger
pub mod Steps
pub mod Phases
pub mod Transactions
use xend.Common.{ℕ, List, [], Option, Result}
use xend.Common.Text.{Text}

-- The table `wallets`. The column `user_id` is never written, and is left out.
pub record Wallet : Type 0 where
  pub id : ℕ
  pub pubkey : Text
  pub label : Option Text
  pub created_at : ℕ

-- The table `transactions`.
pub record Transaction : Type 0 where
  pub id : ℕ
  pub wallet_id : Option ℕ
  pub idempotency_key : Text
  pub signature : Option Text
  pub status : Text
  pub to_address : Option Text
  pub amount : Option Text
  pub mint : Option Text
  pub created_at : ℕ
  pub updated_at : ℕ

pub record Db : Type 0 where
  pub wallets : List Wallet
  pub transactions : List Transaction

abbrev pub empty_db : Db
empty_db = record { wallets = []; transactions = [] }

abbrev pub Statement : Type 0 → Type 0
Statement A = ℕ → Db → Result (A × Db) Text
