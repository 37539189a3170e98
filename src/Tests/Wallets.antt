-- ===== src/Tests/Wallets.antt =====
-- Runs of the wallet handlers on concrete requests.
use xend.Common.{arith, ℕ, ◌≡◌, refl, [], ◌∷◌, none, some, ok, replicate, length}
use xend.Common.Int.{pos}
use xend.Common.Text.{Text, text, text_eq}
use xend.Runtime.{World, ◌>>=◌, pure, lift, run_sql, new_uuid}
use xend.Store.{Transaction}
use xend.Store.Wallets.{select_by_pubkey, upsert, upsert_statement}
use xend.Store.Wallets.Keys.{IsRegistered}
use xend.Store.Transactions.{Record, matching, sort_desc, insert_desc, list_statement}
use xend.Handlers.Wallet.{
  RegisterWalletRequest, RegisterWalletResponse, HistoryQuery, HistoryResponse, register,
  validate_solana_pubkey,
}
use xend.Handlers.Wallet.Register.{register-IsRegistered, register_of_IsRegistered}
use xend.Store.Transactions.Pages.{HasDistinctTimes, pages_join}
use xend.Tests.{host, base58, chain, start}

abbrev key : Text
key = replicate 32 49

abbrev request : RegisterWalletRequest
request = record { pubkey = key; label = some (text "main") }

abbrev registered : World
registered = (register host base58 chain request start).1

abbrev response : RegisterWalletResponse
response = record { wallet_id = 0; pubkey = key }

first_register : register host base58 chain request start ≡ (ok response, registered)
unfolding register validate_solana_pubkey lift ◌>>=◌ pure upsert upsert_statement new_uuid run_sql
    select_by_pubkey
first_register = refl

register-IsRegistered_example :
    (validate_solana_pubkey base58 key ≡ ok tt)
    × (response.pubkey ≡ key)
    × IsRegistered key 0 registered.db
register-IsRegistered_example =
    register-IsRegistered host base58 chain request start registered response first_register

key-valid : validate_solana_pubkey base58 key ≡ ok tt
unfolding validate_solana_pubkey
key-valid = refl

known_key : IsRegistered key 0 registered.db
unfolding register validate_solana_pubkey lift ◌>>=◌ pure upsert upsert_statement new_uuid run_sql
    select_by_pubkey text text_eq
known_key =
    (record { id = 0; pubkey = key; label = some (text "main"); created_at = 1 }, refl, refl)

register_of_IsRegistered_example :
    (w' : World) × (register host base58 chain request registered ≡ (ok response, w'))
    × (length w'.db.wallets ≡ length registered.db.wallets)
    × (w'.db.transactions ≡ registered.db.transactions)
register_of_IsRegistered_example =
    register_of_IsRegistered host base58 chain request registered 0 key-valid known_key refl

abbrev row : ℕ → Text → ℕ → Transaction
row id signature created = record {
  id = id;
  wallet_id = some 0;
  idempotency_key = signature;
  signature = some signature;
  status = text "submitted";
  to_address = none;
  amount = none;
  mint = none;
  created_at = created;
  updated_at = created;
}

abbrev with_rows : World
with_rows = record {
  db = record {
    wallets = record { id = 0; pubkey = key; label = none; created_at = 0 } ∷ [];
    transactions = row 1 (text "s1") 10 ∷ row 2 (text "s2") 20 ∷ row 3 (text "s3") 30 ∷ [];
  };
  sent = [];
  step = 40;
}

abbrev listed : ℕ → Text → Record
listed created signature = record {
  signature = signature;
  status = text "submitted";
  to_address = none;
  amount = none;
  mint = none;
  created_at = created;
}

two_newest :
    list_statement 0 2 (some 25) 40 with_rows.db
    ≡ ok (listed 20 (text "s2") ∷ listed 10 (text "s1") ∷ [], with_rows.db)
unfolding list_statement matching sort_desc insert_desc text
two_newest = refl

newest :
    list_statement 0 2 none 40 with_rows.db
    ≡ ok (listed 30 (text "s3") ∷ listed 20 (text "s2") ∷ [], with_rows.db)
unfolding list_statement matching sort_desc insert_desc text
newest = refl

oldest :
    list_statement 0 2 (some 20) 41 with_rows.db ≡ ok (listed 10 (text "s1") ∷ [], with_rows.db)
unfolding list_statement matching sort_desc insert_desc text
oldest = refl

distinct : HasDistinctTimes (matching 0 none with_rows.db.transactions)
unfolding matching
distinct = (
  ((λ e. omega (arith, e)), ((λ e. omega (arith, e)), tt)),
  (((λ e. omega (arith, e)), tt), (tt, tt)),
)

pages_join_example :
    list_statement 0 4 none 42 with_rows.db
    ≡ ok (listed 30 (text "s3") ∷ listed 20 (text "s2") ∷ listed 10 (text "s1") ∷ [], with_rows.db)
pages_join_example =
    pages_join 0 2 2 none 40 41 42 with_rows.db (listed 30 (text "s3") ∷ listed 20 (text "s2") ∷ [])
      (listed 10 (text "s1") ∷ []) (listed 20 (text "s2")) distinct newest refl oldest

abbrev query : HistoryQuery
query = record { limit = some (pos 2); before = none }

abbrev page : HistoryResponse
page = record {
  transactions =
      record {
        signature = text "s3";
        status = text "submitted";
        to = none;
        amount = none;
        mint = none;
        created_at = 30;
      }
      ∷ record {
        signature = text "s2";
        status = text "submitted";
        to = none;
        amount = none;
        mint = none;
        created_at = 20;
      }
      ∷ [];
}
