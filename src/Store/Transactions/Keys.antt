-- ===== src/Store/Transactions/Keys.antt =====
-- What the statements on `transactions` do to the row of a key.
use mathlib.Core.Option
use xend.Common.{
  ℕ, ◌≡◌, true, List, [], ◌∷◌, ◌++◌, none, some, any, Bool-cases, inl, inr, arith, if◌then◌else◌,
}
use xend.Common.Text.{Text, text_eq, text_eq_iff}
use xend.Store.{Db, Transaction}
use xend.Store.Transactions.{select_by_key, has_key, submitted_row, update_rows}

abbrev pub HasKey : Text → Db → Type 0
HasKey key db = (row : Transaction) × (select_by_key key db.transactions ≡ some row)

-- The row of a key keeps its key under an update.
pub select-update_rows :
    (key j signature : Text) (now : ℕ) (rows : List Transaction)
    → select_by_key j (update_rows key signature now rows) ≡ (
        if text_eq key j
        then Option.map (submitted_row signature now) (select_by_key j rows)
        else select_by_key j rows)
unfolding select_by_key update_rows submitted_row
select-update_rows key j signature now [] = ground arith
select-update_rows key j signature now (row ∷ rows) = ground (
  arith,
  select-update_rows key j signature now rows,
  text_eq_iff key j,
  text_eq_iff row.idempotency_key j,
  text_eq_iff row.idempotency_key key,
)

-- A row at the end is found if no row before it has its key.
pub select-append :
    (j : Text) (rows : List Transaction) (row : Transaction)
    → select_by_key j (rows ++ row ∷ []) ≡ elim (select_by_key j rows) [
      | none ↦ if text_eq row.idempotency_key j then some row else none
      | some r ↦ some r
    ]
unfolding select_by_key
select-append j [] row = ground arith
select-append j (r ∷ rows) row = ground (arith, select-append j rows row)

pub any-has_key :
    (key : Text) (rows : List Transaction)
    → any (has_key key) rows ≡ true
    → (row : Transaction) × (select_by_key key rows ≡ some row)
unfolding select_by_key
any-has_key key [] h = cc
any-has_key key (r ∷ rows) h = elim (Bool-cases (text_eq r.idempotency_key key)) [
  | inl here ↦ (r, rw here)
  | inr further ↦ let (row, e) = any-has_key key rows (ground arith) in (row, rw further e)
]

pub select-any :
    (key : Text) (rows : List Transaction) (row : Transaction)
    → select_by_key key rows ≡ some row
    → any (has_key key) rows ≡ true
unfolding select_by_key
select-any key [] row h = absurd (ground arith)
select-any key (r ∷ rows) row h = ground (arith, select-any key rows row)
