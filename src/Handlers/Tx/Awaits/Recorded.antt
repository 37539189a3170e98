-- ===== src/Handlers/Tx/Awaits/Recorded.antt =====
-- The row of a key that is only ever broadcast with one signature.
use xend.Common.{
  ℕ, ◌≡◌, sym, ap, ◌∙◌, ◌⊎◌, inl, inr, none, some, ok, arith, Option-cases, Bool-cases,
}
use xend.Common.Text.{Text, text, text_eq, text_eq_iff}
use xend.Store.{Db, Transaction}
use xend.Store.Transactions.{
  Claim, select_by_key, insert_statement, update_statement, pending_row, submitted_row,
}
use xend.Store.Transactions.Keys.{select-update_rows, select-append}

-- A row of the key has no signature, or this one.
abbrev pub Recorded : Text → Text → Db → Type 0
Recorded key signature db =
    (row : Transaction)
    → select_by_key key db.transactions ≡ some row
    → (row.signature ≡ none) ⊎ ((row.signature ≡ some signature) × (row.status ≡ text "submitted"))

pub Recorded-same :
    (key s : Text) (a b : Db)
    → b.transactions ≡ a.transactions
    → Recorded key s a
    → Recorded key s b
Recorded-same key s a b e r row found = r row (ap (select_by_key key) (sym e) ∙ found)

pub insert-Recorded :
    (key s : Text) (id now : ℕ) (c : Claim) (a b : Db)
    → insert_statement id c now a ≡ ok (tt, b)
    → Recorded key s a
    → Recorded key s b
unfolding insert_statement pending_row
insert-Recorded key s id now c a b h r row found =
    elim (Option-cases (select_by_key key a.transactions)) [
      | inl new ↦ inl (ground (arith, select-append key a.transactions (pending_row id now c)))
      | inr (old, e) ↦
          r row (e ∙ ground (arith, select-append key a.transactions (pending_row id now c)))
    ]

pub update-Recorded :
    (key s k t : Text) (now : ℕ) (a b : Db)
    → (k ≡ key → t ≡ s)
    → update_statement k t now a ≡ ok (tt, b)
    → Recorded key s a
    → Recorded key s b
unfolding update_statement submitted_row
update-Recorded key s k t now a b same h r row found = elim (Bool-cases (text_eq k key)) [
  | inl here ↦
      let e : t ≡ s = same (ground (arith, text_eq_iff k key)) in
      elim (Option-cases (select_by_key key a.transactions)) [
        | inl missing ↦ absurd (ground (arith, select-update_rows k key t now a.transactions))
        | inr (old, o) ↦
            let p : row ≡ submitted_row t now old =
              ground (arith, select-update_rows k key t now a.transactions) in
            inr (ground arith, ground arith)
      ]
  | inr other ↦ r row (ground (arith, select-update_rows k key t now a.transactions))
]
