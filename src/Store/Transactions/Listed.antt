-- ===== src/Store/Transactions/Listed.antt =====
-- A recorded row stands in the listing of its wallet.
use mathlib.Core.List.{Mem, mem-cons_self, mem-cons_of_mem}
use mathlib.Core.List.Perm
use mathlib.Core.Path.{subst}
use xend.Common.{
  ℕ, Bool, if◌then◌else◌, ◌≤◌, ◌≡◌, refl, sym, true, false, ◌&&◌, ◌==◌, List, [], ◌∷◌, Option, none,
  some, ok, arith, Bool-cases, inl, inr, length, take, take_all,
}
use xend.Common.Text.{Text, text_eq}
use xend.Store.{Db, Transaction}
use xend.Store.Transactions.{
  Record, select_by_key, matching, sort_desc, list_statement, owned_by, broadcast_record,
}
use xend.Store.Transactions.History.{sort_desc-Perm, length-sort_desc}

-- What the listing shows of a row with this signature.
abbrev pub shown : Transaction → Text → Record
shown row signature = record {
  signature = signature;
  status = row.status;
  to_address = row.to_address;
  amount = row.amount;
  mint = row.mint;
  created_at = row.created_at;
}

-- What `matching` makes of one row.
abbrev with_row : Transaction → Bool → Option Text → List Record → List Record
with_row r kept signature rest =
    if kept then elim (broadcast_record r signature) [ none ↦ rest | some x ↦ x ∷ rest ] else rest

mem-with_row :
    (x : Record) (r : Transaction) (kept : Bool) (signature : Option Text) (rest : List Record)
    → Mem x rest
    → Mem x (with_row r kept signature rest)
mem-with_row x r false signature rest m = m
mem-with_row x r true none rest m = m
mem-with_row x r true (some s) rest m = mem-cons_of_mem _ m

shown_first :
    (row : Transaction) (wallet : ℕ) (signature : Text) (owner : Option ℕ) (o : Option Text)
    (rest : List Record)
    → owner ≡ some wallet
    → o ≡ some signature
    → Mem (shown row signature) (with_row row (owned_by wallet owner && true) o rest)
shown_first row wallet signature owner o rest h e = rw (h, e, same wallet) mem-cons_self
  where
    same : (n : ℕ) → (n == n) ≡ true
    same n = ground arith

mem-matching :
    (key signature : Text) (wallet : ℕ) (rows : List Transaction) (row : Transaction)
    → select_by_key key rows ≡ some row
    → row.wallet_id ≡ some wallet
    → row.signature ≡ some signature
    → Mem (shown row signature) (matching wallet none rows)
unfolding select_by_key matching
mem-matching key signature wallet [] row e o s = absurd (ground arith)
mem-matching key signature wallet (r ∷ rows) row e o s =
    elim (Bool-cases (text_eq r.idempotency_key key)) [
      | inl here ↦
          let same : r ≡ row = ground arith in
          subst
            (λ (x : Transaction). Mem (shown row signature) (
              with_row x (owned_by wallet x.wallet_id && true) x.signature
                (matching wallet none rows)))
            (sym same)
            (shown_first row wallet signature row.wallet_id row.signature
              (matching wallet none rows) o s)
      | inr other ↦
          let later : select_by_key key rows ≡ some row = ground arith in
          mem-with_row (shown row signature) r (owned_by wallet r.wallet_id && true) r.signature
            (matching wallet none rows) (mem-matching key signature wallet rows row later o s)
    ]

-- A listing with room for every row of the wallet shows the row.
pub mem-list_statement :
    (key signature : Text) (wallet n now : ℕ) (db : Db) (row : Transaction)
    → select_by_key key db.transactions ≡ some row
    → row.wallet_id ≡ some wallet
    → row.signature ≡ some signature
    → length (matching wallet none db.transactions) ≤ n
    → (page : List Record) × (list_statement wallet n none now db ≡ ok (page, db))
      × Mem (shown row signature) page
unfolding list_statement
mem-list_statement key signature wallet n now db row e o s room =
    let found = matching wallet none db.transactions in
    let all : take n (sort_desc found) ≡ sort_desc found =
      take_all n (sort_desc found) (omega (arith, length-sort_desc found)) in
    (
      take n (sort_desc found),
      refl,
      subst (Mem (shown row signature)) (sym all) (
          (Perm.mem_iff (sort_desc-Perm found)).1
            (mem-matching key signature wallet db.transactions row e o s)),
    )
