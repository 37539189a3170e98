-- ===== src/Store/Transactions.antt =====
-- backend/src/store/transactions.rs
pub mod Keys
pub mod History
pub mod Pages
pub mod Listed
use xend.Common.{
  ℕ, Bool, true, false, not, ◌&&◌, List, [], ◌∷◌, ◌++◌, Option, none, some, ok, err, any, take, ltb,
  ◌==◌, if◌then◌else◌,
}
use xend.Common.Text.{Text, text, text_eq}
use xend.Store.{Wallet, Transaction, Statement}
use xend.Runtime.{Host, M, ◌>>=◌, new_uuid, run_sql}

pub record Existing : Type 0 where
  pub signature : Option Text
  pub status : Text

unfoldable pub select_by_key : Text → List Transaction → Option Transaction
select_by_key key [] = none
select_by_key key (row ∷ rows) =
    if text_eq row.idempotency_key key then some row else select_by_key key rows

abbrev pub existing : Option Transaction → Option Existing
existing none = none
existing (some row) = some (record { signature = row.signature; status = row.status })

unfoldable pub find_statement : Text → Statement (Option Existing)
find_statement key now db = ok (existing (select_by_key key db.transactions), db)

-- The foreign key `wallet_id references wallets (id)`.
unfoldable pub refers : Option ℕ → List Wallet → Bool
refers none wallets = true
refers (some id) wallets = any (λ row. row.id == id) wallets

abbrev pub has_key : Text → Transaction → Bool
has_key key row = text_eq row.idempotency_key key

-- What the columns of a new row hold; `status` is 'pending' and there is no signature yet.
pub record Claim : Type 0 where
  pub wallet_id : Option ℕ
  pub idempotency_key : Text
  pub to_address : Option Text
  pub amount : Option Text
  pub mint : Option Text

unfoldable pub pending_row : ℕ → ℕ → Claim → Transaction
pending_row id now c = record {
  id = id;
  wallet_id = c.wallet_id;
  idempotency_key = c.idempotency_key;
  signature = none;
  status = text "pending";
  to_address = c.to_address;
  amount = c.amount;
  mint = c.mint;
  created_at = now;
  updated_at = now;
}

-- `on conflict (idempotency_key) do nothing`; the other constraints raise an error.
unfoldable pub insert_statement : ℕ → Claim → Statement (Unit {0})
insert_statement id c now db =
    if any (has_key c.idempotency_key) db.transactions
    then ok (tt, db)
    else if any (λ row. row.id == id) db.transactions
    then err (text "duplicate key value violates unique constraint \"transactions_pkey\"")
    else if not (refers c.wallet_id db.wallets)
    then err (text "violates foreign key constraint \"transactions_wallet_id_fkey\"")
    else ok (tt, record db { transactions = db.transactions ++ pending_row id now c ∷ [] })

-- The row that `update` writes.
unfoldable pub submitted_row : Text → ℕ → Transaction → Transaction
submitted_row signature now row = record row {
  signature = some signature;
  status = text "submitted";
  updated_at = now;
}

unfoldable pub update_rows : Text → Text → ℕ → List Transaction → List Transaction
update_rows key signature now [] = []
update_rows key signature now (row ∷ rows) =
    (if has_key key row then submitted_row signature now row else row)
    ∷ update_rows key signature now rows

abbrev pub signed_by : Text → Option Text → Bool
signed_by signature none = false
signed_by signature (some s) = text_eq s signature

-- A row under another key that holds the signature already.
unfoldable pub taken : Text → Text → List Transaction → Bool
taken key signature rows =
    any (λ row. not (has_key key row) && signed_by signature row.signature) rows

-- The constraint `signature unique` refuses the update when there is a row to write.
unfoldable pub update_statement : Text → Text → Statement (Unit {0})
update_statement key signature now db =
    if any (has_key key) db.transactions && taken key signature db.transactions
    then err (text "duplicate key value violates unique constraint \"transactions_signature_key\"")
    else ok (tt, record db { transactions = update_rows key signature now db.transactions })

pub record Record : Type 0 where
  pub signature : Text
  pub status : Text
  pub to_address : Option Text
  pub amount : Option Text
  pub mint : Option Text
  pub created_at : ℕ

abbrev pub owned_by : ℕ → Option ℕ → Bool
owned_by wallet none = false
owned_by wallet (some id) = id == wallet

abbrev pub is_before : Option ℕ → ℕ → Bool
is_before none created = true
is_before (some cursor) created = ltb created cursor

-- The columns of a row that `where` lets through; a row with no signature is omitted.
abbrev pub broadcast_record : Transaction → Option Text → Option Record
broadcast_record row none = none
broadcast_record row (some signature) = some (record {
  signature = signature;
  status = row.status;
  to_address = row.to_address;
  amount = row.amount;
  mint = row.mint;
  created_at = row.created_at;
})

unfoldable pub matching : ℕ → Option ℕ → List Transaction → List Record
matching wallet before [] = []
matching wallet before (row ∷ rows) =
    let rest = matching wallet before rows in
    if owned_by wallet row.wallet_id && is_before before row.created_at
    then elim (broadcast_record row row.signature) [ none ↦ rest | some r ↦ r ∷ rest ]
    else rest

-- `order by created_at desc`: rows of one time keep the order of the table.
unfoldable pub insert_desc : Record → List Record → List Record
insert_desc r [] = r ∷ []
insert_desc r (s ∷ rows) =
    if ltb r.created_at s.created_at then s ∷ insert_desc r rows else r ∷ s ∷ rows

unfoldable pub sort_desc : List Record → List Record
unfolding insert_desc
sort_desc [] = []
sort_desc (r ∷ rows) = insert_desc r (sort_desc rows)

unfoldable pub list_statement : ℕ → ℕ → Option ℕ → Statement (List Record)
list_statement wallet limit before now db =
    ok (take limit (sort_desc (matching wallet before db.transactions)), db)

module _ (host : Host) where
  unfoldable pub find_by_idempotency : Text → M (Option Existing)
  find_by_idempotency key = run_sql host (find_statement key)

  unfoldable pub insert_pending : Claim → M (Unit {0})
  insert_pending c = do id ← new_uuid host; run_sql host (insert_statement id c)

  unfoldable pub list_for_wallet : ℕ → ℕ → Option ℕ → M (List Record)
  list_for_wallet wallet limit before = run_sql host (list_statement wallet limit before)

  unfoldable pub mark_submitted : Text → Text → M (Unit {0})
  mark_submitted key signature = run_sql host (update_statement key signature)
