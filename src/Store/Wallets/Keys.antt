-- ===== src/Store/Wallets/Keys.antt =====
-- What the statements on `wallets` do to the row of a public key.
use mathlib.Core.Option
use xend.Common.{
  ℕ, suc, ◌≡◌, refl, ap, List, [], ◌∷◌, ◌++◌, none, some, ok, length, Option-cases, inl, inr, arith,
  Option,
}
use xend.Common.Text.{Text, text_eq_iff}
use xend.Store.{Db, Wallet}
use xend.Store.Wallets.{select_by_pubkey, relabel, upsert_statement, coalesce}

abbrev relabeled : Option Text → Wallet → Wallet
relabeled label row = record row { label = coalesce label row.label }

select-relabel :
    (pubkey : Text) (label : Option Text) (rows : List Wallet)
    → select_by_pubkey pubkey (relabel pubkey label rows)
      ≡ Option.map (relabeled label) (select_by_pubkey pubkey rows)
unfolding select_by_pubkey relabel
select-relabel pubkey label [] = refl
select-relabel pubkey label (row ∷ rows) =
    ground (arith, select-relabel pubkey label rows, text_eq_iff row.pubkey pubkey)

length-relabel :
    (pubkey : Text) (label : Option Text) (rows : List Wallet)
    → length (relabel pubkey label rows) ≡ length rows
unfolding relabel
length-relabel pubkey label [] = refl
length-relabel pubkey label (row ∷ rows) = ap suc (length-relabel pubkey label rows)

select-append :
    (pubkey : Text) (rows : List Wallet) (row : Wallet)
    → select_by_pubkey pubkey rows ≡ none
    → row.pubkey ≡ pubkey
    → select_by_pubkey pubkey (rows ++ row ∷ []) ≡ some row
unfolding select_by_pubkey
select-append pubkey [] row h e = ground (arith, text_eq_iff row.pubkey pubkey)
select-append pubkey (r ∷ rows) row h e = ground (arith, select-append pubkey rows row)

-- The table has a wallet of the key with the id.
abbrev pub IsRegistered : Text → ℕ → Db → Type 0
IsRegistered pubkey id db =
    (row : Wallet) × (select_by_pubkey pubkey db.wallets ≡ some row) × (row.id ≡ id)

-- An upsert that returns has registered its key under the id it returns.
pub upsert-IsRegistered :
    (new_id : ℕ) (pubkey : Text) (label : Option Text) (now : ℕ) (db db' : Db) (id : ℕ)
    → upsert_statement new_id pubkey label now db ≡ ok (id, db')
    → IsRegistered pubkey id db'
upsert-IsRegistered new_id pubkey label now db db' id h =
    elim (Option-cases (select_by_pubkey pubkey db.wallets)) [
      | inl new ↦ (
        record { id = new_id; pubkey = pubkey; label = label; created_at = now },
        unfold upsert_statement in
            ground (
              arith,
              select-append pubkey db.wallets
                  (record { id = new_id; pubkey = pubkey; label = label; created_at = now }),
            ),
        unfold upsert_statement in ground arith,
      )
      | inr (row, old) ↦ (
        relabeled label row,
        unfold upsert_statement in ground (arith, select-relabel pubkey label db.wallets),
        unfold upsert_statement in ground arith,
      )
    ]

-- An upsert of a registered key returns its id and adds no row.
pub upsert_of_IsRegistered :
    (new_id : ℕ) (pubkey : Text) (label : Option Text) (now : ℕ) (db : Db) (id : ℕ)
    → IsRegistered pubkey id db
    → (db' : Db) × (upsert_statement new_id pubkey label now db ≡ ok (id, db'))
      × (length db'.wallets ≡ length db.wallets)
      × (db'.transactions ≡ db.transactions)
upsert_of_IsRegistered new_id pubkey label now db id (row, found, same) = (
  record db { wallets = relabel pubkey label db.wallets },
  unfold upsert_statement in ground arith,
  length-relabel pubkey label db.wallets,
  refl,
)
