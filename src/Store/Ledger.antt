-- ===== src/Store/Ledger.antt =====
-- What the tables satisfy whoever runs statements on them, in whatever order.
pub mod Rows
pub mod Accounts
use mathlib.Core.Path.{subst}
use xend.Common.{
  ℕ, ◌≡◌, refl, sym, ap, ◌∙◌, Bool, true, false, not, List, [], ◌∷◌, ◌++◌, Option, none, some, ok,
  any, arith, Bool-cases, Option-cases, inl, inr, All, All-append, ◌==◌, ◌&&◌,
}
use xend.Common.Text.{Text}
use xend.Store.{Db, Wallet, Transaction, empty_db}
use xend.Store.Wallets.{select_by_pubkey, relabel, upsert_statement}
use xend.Store.Transactions.{
  Claim, has_key, taken, pending_row, update_rows, insert_statement, update_statement, refers,
}
use xend.Store.Ledger.Rows.{
  Unique, unique_append, same_key, same_signature, fresh_key, fresh_signature, update_rows-same_key,
  update_rows-same_signature, update_rows_absent,
}
use xend.Store.Ledger.Accounts.{
  same_pubkey, relabel-same_pubkey, fresh_pubkey, refers-relabel, refers-append, HasOwner,
  HasOwner-update_rows, HasOwner-map,
}

-- One row for each idempotency key, one for each signature, one wallet for each public key, and
-- each transaction of a wallet that exists.
pub record IsLedger (db : Db) : Type 0 where
  pub keys : Unique same_key db.transactions
  pub signatures : Unique same_signature db.transactions
  pub pubkeys : Unique same_pubkey db.wallets
  pub owners : All (HasOwner db.wallets) db.transactions

pub empty_db-IsLedger : IsLedger empty_db
empty_db-IsLedger = record { keys = tt; signatures = tt; pubkeys = tt; owners = tt }

appended-IsLedger :
    (id now : ℕ) (c : Claim) (db : Db)
    → any (has_key c.idempotency_key) db.transactions ≡ false
    → refers c.wallet_id db.wallets ≡ true
    → IsLedger db
    → IsLedger (record db { transactions = db.transactions ++ pending_row id now c ∷ [] })
appended-IsLedger id now c db fresh owned l = record {
  keys =
      unique_append same_key db.transactions (pending_row id now c) l.keys
        (fresh_key id now c db.transactions fresh);
  signatures =
      unique_append same_signature db.transactions (pending_row id now c) l.signatures
        (fresh_signature id now c db.transactions);
  pubkeys = l.pubkeys;
  owners =
      All-append (HasOwner db.wallets) db.transactions (pending_row id now c ∷ []) l.owners
        (unfold pending_row in owned, tt);
}

pub insert_statement-IsLedger :
    (id : ℕ) (c : Claim) (now : ℕ) (db db' : Db)
    → insert_statement id c now db ≡ ok (tt, db')
    → IsLedger db
    → IsLedger db'
unfolding insert_statement
insert_statement-IsLedger id c now db db' h l =
    elim (Bool-cases (any (has_key c.idempotency_key) db.transactions)) [
      | inl old ↦ subst IsLedger (ground arith) l
      | inr fresh ↦ elim (Bool-cases (refers c.wallet_id db.wallets)) [
        | inl owned ↦ subst IsLedger (ground arith) (appended-IsLedger id now c db fresh owned l)
        | inr dangling ↦ absurd (ground arith)
      ]
    ]

updated-IsLedger :
    (key signature : Text) (now : ℕ) (db : Db)
    → taken key signature db.transactions ≡ false
    → IsLedger db
    → IsLedger (record db { transactions = update_rows key signature now db.transactions })
updated-IsLedger key signature now db free l = record {
  keys = update_rows-same_key key signature now db.transactions l.keys;
  signatures =
      update_rows-same_signature key signature now db.transactions l.keys l.signatures free;
  pubkeys = l.pubkeys;
  owners = HasOwner-update_rows db.wallets key signature now db.transactions l.owners;
}

pub update_statement-IsLedger :
    (key signature : Text) (now : ℕ) (db db' : Db)
    → update_statement key signature now db ≡ ok (tt, db')
    → IsLedger db
    → IsLedger db'
unfolding update_statement
update_statement-IsLedger key signature now db db' h l =
    elim (Bool-cases (any (has_key key) db.transactions)) [
      | inl known ↦
          subst IsLedger (ground arith) (updated-IsLedger key signature now db (ground arith) l)
      | inr unknown ↦
          subst IsLedger (ground (arith, update_rows_absent key signature now db.transactions)) l
    ]

relabeled-IsLedger :
    (pubkey : Text) (label : Option Text) (db : Db)
    → IsLedger db
    → IsLedger (record db { wallets = relabel pubkey label db.wallets })
relabeled-IsLedger pubkey label db l = record {
  keys = l.keys;
  signatures = l.signatures;
  pubkeys = relabel-same_pubkey pubkey label db.wallets l.pubkeys;
  owners =
      HasOwner-map db.wallets (relabel pubkey label db.wallets) db.transactions
        (λ o h. refers-relabel o pubkey label db.wallets ∙ h) l.owners;
}

registered-IsLedger :
    (w : Wallet) (db : Db)
    → select_by_pubkey w.pubkey db.wallets ≡ none
    → IsLedger db
    → IsLedger (record db { wallets = db.wallets ++ w ∷ [] })
registered-IsLedger w db fresh l = record {
  keys = l.keys;
  signatures = l.signatures;
  pubkeys =
      unique_append same_pubkey db.wallets w l.pubkeys
        (fresh_pubkey w.pubkey w db.wallets refl fresh);
  owners =
      HasOwner-map db.wallets (db.wallets ++ w ∷ []) db.transactions
        (λ o h. refers-append o db.wallets w h) l.owners;
}

pub upsert_statement-IsLedger :
    (id : ℕ) (pubkey : Text) (label : Option Text) (now : ℕ) (db db' : Db) (i : ℕ)
    → upsert_statement id pubkey label now db ≡ ok (i, db')
    → IsLedger db
    → IsLedger db'
unfolding upsert_statement
upsert_statement-IsLedger id pubkey label now db db' i h l =
    elim (Option-cases (select_by_pubkey pubkey db.wallets)) [
      | inl fresh ↦
          let row : Wallet = record { id = id; pubkey = pubkey; label = label; created_at = now } in
          subst IsLedger (ground arith) (registered-IsLedger row db fresh l)
      | inr (row, old) ↦ subst IsLedger (ground arith) (relabeled-IsLedger pubkey label db l)
    ]
