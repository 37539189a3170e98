-- ===== src/Handlers/Tx/Awaits/Ready.antt =====
-- Tables in which the statements of a submission succeed.
use mathlib.Core.Path.{subst}
use xend.Common.{
  ℕ, ◌≡◌, refl, ap, ◌∙◌, ◌⊎◌, inl, inr, true, false, ◌==◌, List, [], ◌∷◌, ◌++◌, any, ok, arith,
  Bool-cases, Option-cases,
}
use xend.Common.Text.{Text, text_eq, text_eq_refl}
use xend.Store.{Db, Transaction, Wallet}
use xend.Store.Wallets.{select_by_pubkey, wallet_id}
use xend.Store.Transactions.{
  Claim, has_key, taken, refers, insert_statement, update_statement, update_rows, pending_row,
  submitted_row,
}
use xend.Store.Transactions.Keys.{HasKey, any-has_key, select-any, select-update_rows}
use xend.Handlers.Tx.Stored.{insert-HasKey}
use xend.Handlers.Tx.Awaits.Recorded.{Recorded, insert-Recorded, update-Recorded}

taken-append :
    (key signature : Text) (rows : List Transaction) (row : Transaction)
    → has_key key row ≡ true
    → taken key signature rows ≡ false
    → taken key signature (rows ++ row ∷ []) ≡ false
unfolding taken
taken-append key signature [] row h e = rw h refl
taken-append key signature (r ∷ rows) row h e = ground (arith, taken-append key signature rows row)

taken-update_rows :
    (key signature : Text) (now : ℕ) (rows : List Transaction)
    → taken key signature rows ≡ false
    → taken key signature (update_rows key signature now rows) ≡ false
unfolding taken update_rows submitted_row
taken-update_rows key signature now [] e = refl
taken-update_rows key signature now (r ∷ rows) e =
    ground (arith, taken-update_rows key signature now rows)

pub has_id :
    (pubkey : Text) (wallets : List Wallet)
    → refers (wallet_id (select_by_pubkey pubkey wallets)) wallets ≡ true
unfolding refers select_by_pubkey
has_id pubkey [] = refl
has_id pubkey (w ∷ wallets) = elim (Bool-cases (text_eq w.pubkey pubkey)) [
  | inl here ↦ ground arith
  | inr further ↦ elim (Option-cases (select_by_pubkey pubkey wallets)) [
    | inl none_there ↦ ground arith
    | inr (row, e) ↦ ground (arith, has_id pubkey wallets)
  ]
]

pub update_rows_other :
    (key signature : Text) (now : ℕ) (rows : List Transaction)
    → any (has_key key) rows ≡ false
    → update_rows key signature now rows ≡ rows
unfolding update_rows
update_rows_other key signature now [] h = refl
update_rows_other key signature now (r ∷ rows) h =
    ground (arith, update_rows_other key signature now rows)

module _ (key signature : Text) (rows : List Transaction) (wallets : List Wallet) where
  -- The signature is not another key's, and the tables have the rows of the start, or a row of the key.
  pub record IsReady (db : Db) : Type 0 where
    pub same_wallets : db.wallets ≡ wallets
    pub free : taken key signature db.transactions ≡ false
    pub claimed : (db.transactions ≡ rows) ⊎ HasKey key db
    pub recorded : Recorded key signature db

  key_stays :
      (now : ℕ) (db : Db)
      → HasKey key db
      → HasKey key (record db { transactions = update_rows key signature now db.transactions })
  key_stays now db (row, e) = (
    submitted_row signature now row,
    ground (arith, select-update_rows key key signature now db.transactions, text_eq_refl key),
  )

  pub still_claimed :
      (now : ℕ) (db : Db)
      → (db.transactions ≡ rows) ⊎ HasKey key db
      → (update_rows key signature now db.transactions ≡ rows)
        ⊎ HasKey key (record db { transactions = update_rows key signature now db.transactions })
  still_claimed now db (inr h) = inr (key_stays now db h)
  still_claimed now db (inl e) = elim (Bool-cases (any (has_key key) db.transactions)) [
    | inl known ↦ inr (key_stays now db (any-has_key key db.transactions known))
    | inr new ↦ inl (update_rows_other key signature now db.transactions new ∙ e)
  ]

  fresh_row :
      (id now : ℕ) (c : Claim) (db : Db)
      → any (λ row. row.id == id) rows ≡ false
      → refers c.wallet_id wallets ≡ true
      → c.idempotency_key ≡ key
      → any (has_key c.idempotency_key) db.transactions ≡ false
      → IsReady db
      → (db.transactions ≡ rows) ⊎ HasKey key db
      → (db' : Db) × (insert_statement id c now db ≡ ok (tt, db')) × IsReady db'
  fresh_row id now c db fresh owner same new r (inr (row, e)) =
      absurd (ground (arith, select-any key db.transactions row e))
  fresh_row id now c db fresh owner same new r (inl e) =
      let db' : Db = record db { transactions = db.transactions ++ pending_row id now c ∷ [] } in
      let unused : any (λ row. row.id == id) db.transactions ≡ false =
        ap (any (λ row. row.id == id)) e ∙ fresh in
      let owned : refers c.wallet_id db.wallets ≡ true =
        ap (refers c.wallet_id) r.same_wallets ∙ owner in
      let run : insert_statement id c now db ≡ ok (tt, db') =
        unfold insert_statement in rw (new, unused, owned) refl in
      (
        db',
        run,
        record {
          same_wallets = r.same_wallets;
          free =
              taken-append key signature db.transactions (pending_row id now c)
                (unfold pending_row in rw same (text_eq_refl key)) r.free;
          claimed = inr (subst (λ k. HasKey k db') same (insert-HasKey id c now db db' run));
          recorded = insert-Recorded key signature id now c db db' run r.recorded;
        },
      )

  pub insert-IsReady :
      (id now : ℕ) (c : Claim) (db : Db)
      → any (λ row. row.id == id) rows ≡ false
      → refers c.wallet_id wallets ≡ true
      → c.idempotency_key ≡ key
      → IsReady db
      → (db' : Db) × (insert_statement id c now db ≡ ok (tt, db')) × IsReady db'
  insert-IsReady id now c db fresh owner same r =
      elim (Bool-cases (any (has_key c.idempotency_key) db.transactions)) [
        | inl known ↦ (db, unfold insert_statement in rw known refl, r)
        | inr new ↦ fresh_row id now c db fresh owner same new r r.claimed
      ]

  pub update-IsReady :
      (now : ℕ) (db : Db)
      → IsReady db
      → (db' : Db) × (update_statement key signature now db ≡ ok (tt, db')) × IsReady db'
  update-IsReady now db r =
      let db' : Db = record db { transactions = update_rows key signature now db.transactions } in
      let run : update_statement key signature now db ≡ ok (tt, db') =
        unfold update_statement in ground (arith, r.free) in
      (
        db',
        run,
        record {
          same_wallets = r.same_wallets;
          free = taken-update_rows key signature now db.transactions r.free;
          claimed = still_claimed now db r.claimed;
          recorded =
              update-Recorded key signature key signature now db db' (λ e. refl) run r.recorded;
        },
      )
