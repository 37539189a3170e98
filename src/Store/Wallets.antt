-- ===== src/Store/Wallets.antt =====
-- backend/src/store/wallets.rs
pub mod Keys
use xend.Common.{
  ℕ, List, [], ◌∷◌, ◌++◌, Option, none, some, Result, ok, err, any, ◌==◌, if◌then◌else◌,
}
use xend.Common.Text.{Text, text, text_eq}
use xend.Store.{Db, Wallet, Statement}
use xend.Runtime.{Host, M, ◌>>=◌, new_uuid, run_sql}

unfoldable pub select_by_pubkey : Text → List Wallet → Option Wallet
select_by_pubkey pubkey [] = none
select_by_pubkey pubkey (row ∷ rows) =
    if text_eq row.pubkey pubkey then some row else select_by_pubkey pubkey rows

-- SQL's `coalesce` of two values.
abbrev pub coalesce : Option Text → Option Text → Option Text
coalesce none b = b
coalesce (some a) b = some a

-- `do update set label = coalesce(excluded.label, wallets.label)`.
unfoldable pub relabel : Text → Option Text → List Wallet → List Wallet
relabel pubkey label [] = []
relabel pubkey label (row ∷ rows) =
    (if text_eq row.pubkey pubkey then record row { label = coalesce label row.label } else row)
    ∷ relabel pubkey label rows

abbrev insert_or_update : ℕ → Text → Option Text → ℕ → Db → Option Wallet → Result (ℕ × Db) Text
insert_or_update id pubkey label now db (some row) =
    ok (row.id, record db { wallets = relabel pubkey label db.wallets })
insert_or_update id pubkey label now db none =
    if any (λ row. row.id == id) db.wallets
    then err (text "duplicate key value violates unique constraint \"wallets_pkey\"")
    else ok (
      id,
      record db {
        wallets =
            db.wallets ++ record { id = id; pubkey = pubkey; label = label; created_at = now } ∷ [];
      },
    )

unfoldable pub upsert_statement : ℕ → Text → Option Text → Statement ℕ
unfolding select_by_pubkey relabel
upsert_statement id pubkey label now db =
    insert_or_update id pubkey label now db (select_by_pubkey pubkey db.wallets)

abbrev pub wallet_id : Option Wallet → Option ℕ
wallet_id none = none
wallet_id (some row) = some row.id

unfoldable pub find_id_statement : Text → Statement (Option ℕ)
unfolding select_by_pubkey
find_id_statement pubkey now db = ok (wallet_id (select_by_pubkey pubkey db.wallets), db)

module _ (host : Host) where
  unfoldable pub upsert : Text → Option Text → M ℕ
  upsert pubkey label = do id ← new_uuid host; run_sql host (upsert_statement id pubkey label)

  unfoldable pub find_id_by_pubkey : Text → M (Option ℕ)
  find_id_by_pubkey pubkey = run_sql host (find_id_statement pubkey)
