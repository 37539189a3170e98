-- ===== src/Store/Ledger/Accounts.antt =====
-- The unique keys of `wallets`, and the foreign key that refers to them.
use xend.Common.{
  ℕ, ◌≡◌, refl, ◌∙◌, Bool, true, false, List, [], ◌∷◌, ◌++◌, Option, none, some, any, arith,
  Bool-cases, inl, inr, All,
}
use xend.Common.Text.{Text, text_eq}
use xend.Store.{Wallet, Transaction}
use xend.Store.Wallets.{select_by_pubkey, relabel}
use xend.Store.Transactions.{refers, update_rows, submitted_row}
use xend.Store.Ledger.Rows.{Unique, text_eq_sym}

abbrev pub same_pubkey : Wallet → Wallet → Bool
same_pubkey v w = text_eq w.pubkey v.pubkey

any_pubkey-relabel :
    (k pubkey : Text) (label : Option Text) (rows : List Wallet)
    → any (λ w. text_eq w.pubkey k) (relabel pubkey label rows) ≡ any (λ w. text_eq w.pubkey k) rows
unfolding relabel
any_pubkey-relabel k pubkey label [] = refl
any_pubkey-relabel k pubkey label (r ∷ rows) =
    ground (arith, any_pubkey-relabel k pubkey label rows)

pub relabel-same_pubkey :
    (pubkey : Text) (label : Option Text) (rows : List Wallet)
    → Unique same_pubkey rows
    → Unique same_pubkey (relabel pubkey label rows)
unfolding relabel
relabel-same_pubkey pubkey label [] u = tt
relabel-same_pubkey pubkey label (r ∷ rows) (p, u) = elim (Bool-cases (text_eq r.pubkey pubkey)) [
  | inl here ↦
      rw here
        (any_pubkey-relabel r.pubkey pubkey label rows ∙ p, relabel-same_pubkey pubkey label rows u)
  | inr other ↦
      rw other
        (any_pubkey-relabel r.pubkey pubkey label rows ∙ p, relabel-same_pubkey pubkey label rows u)
]

-- A key that is not found clashes with no row.
pub fresh_pubkey :
    (pubkey : Text) (w : Wallet) (rows : List Wallet)
    → w.pubkey ≡ pubkey
    → select_by_pubkey pubkey rows ≡ none
    → any (λ v. same_pubkey v w) rows ≡ false
unfolding select_by_pubkey
fresh_pubkey pubkey w [] e h = refl
fresh_pubkey pubkey w (r ∷ rows) e h =
    ground (arith, text_eq_sym w.pubkey r.pubkey, fresh_pubkey pubkey w rows)

pub refers-relabel :
    (o : Option ℕ) (pubkey : Text) (label : Option Text) (rows : List Wallet)
    → refers o (relabel pubkey label rows) ≡ refers o rows
unfolding refers relabel
refers-relabel none pubkey label rows = refl
refers-relabel (some id) pubkey label [] = refl
refers-relabel (some id) pubkey label (r ∷ rows) =
    ground (arith, refers-relabel (some id) pubkey label rows)

pub refers-append :
    (o : Option ℕ) (rows : List Wallet) (w : Wallet)
    → refers o rows ≡ true
    → refers o (rows ++ w ∷ []) ≡ true
unfolding refers
refers-append none rows w h = refl
refers-append (some id) [] w h = cc
refers-append (some id) (r ∷ rows) w h = ground (arith, refers-append (some id) rows w)

-- The sender of each transaction is a wallet.
abbrev pub HasOwner : List Wallet → Transaction → Type 0
HasOwner wallets row = refers row.wallet_id wallets ≡ true

pub HasOwner-update_rows :
    (wallets : List Wallet) (key signature : Text) (now : ℕ) (rows : List Transaction)
    → All (HasOwner wallets) rows
    → All (HasOwner wallets) (update_rows key signature now rows)
unfolding update_rows submitted_row
HasOwner-update_rows wallets key signature now [] h = tt
HasOwner-update_rows wallets key signature now (r ∷ rows) (p, h) =
    (ground arith, HasOwner-update_rows wallets key signature now rows h)

pub HasOwner-map :
    (v w : List Wallet) (rows : List Transaction)
    → ((o : Option ℕ) → refers o v ≡ true → refers o w ≡ true)
    → All (HasOwner v) rows
    → All (HasOwner w) rows
HasOwner-map v w [] f h = tt
HasOwner-map v w (r ∷ rows) f (p, h) = (f r.wallet_id p, HasOwner-map v w rows f h)
