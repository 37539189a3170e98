-- ===== src/Store/Phases.antt =====
-- What the tables say of an idempotency key, with the rest of its row left out, and the diagram of
-- its changes.
use mathlib.Core.Option
use mathlib.Core.Path.{subst}
use xend.Common.{
  ℕ, ◌≡◌, refl, sym, ap, Bool, true, false, ◌⊎◌, inl, inr, [], ◌∷◌, ◌++◌, Option, none, some, ok,
  arith, if◌then◌else◌,
}
use xend.Common.Text.{Text, text_eq}
use xend.Store.{Db, Transaction}
use xend.Store.Transactions.{
  Claim, select_by_key, insert_statement, update_statement, update_rows, submitted_row, pending_row,
}
use xend.Store.Transactions.Keys.{select-update_rows, select-append}
use xend.Store.Steps.{
  Step, registers, looks_up_wallet, looks_up, claims, marks, lists, find_id_keeps, find_keeps,
  list_keeps, upsert-transactions,
}

-- A key that no request has claimed, one that is claimed, and one with the signature of its
-- transaction.
pub data Phase : Type 0 where
  unknown claimed : Phase
  recorded : Text → Phase

abbrev signed_phase : Option Text → Phase
signed_phase none = claimed
signed_phase (some signature) = recorded signature

abbrev row_phase : Option Transaction → Phase
row_phase none = unknown
row_phase (some row) = signed_phase row.signature

abbrev pub phase_of : Text → Db → Phase
phase_of key db = row_phase (select_by_key key db.transactions)

infix 40 ◌⟶◌ ◌⟶?◌
pub data ◌⟶◌ : Phase → Phase → Type 0 where
  claim_key : unknown ⟶ claimed
  first_record : {s : Text} → claimed ⟶ recorded s
  record_again : {s t : Text} → recorded s ⟶ recorded t

-- One arrow of the diagram, or none.
pub data ◌⟶?◌ : Phase → Phase → Type 0 where
  rests : {p : Phase} → p ⟶? p
  moves_on : {p q : Phase} → p ⟶ q → p ⟶? q

-- The row of a key after a claim of the key `c.idempotency_key`.
claim_moves :
    (hits : Bool) (old : Option Transaction) (row : Transaction)
    → row.signature ≡ none
    → row_phase old
      ⟶? row_phase (elim old [ none ↦ if hits then some row else none | some r ↦ some r ])
claim_moves true none row unsigned = rw unsigned (moves_on claim_key)
claim_moves false none row unsigned = rests
claim_moves hits (some r) row unsigned = rests

-- The row of a key after an update of the key.
mark_signed : (signature : Text) (o : Option Text) → signed_phase o ⟶? recorded signature
mark_signed signature none = moves_on first_record
mark_signed signature (some s) = moves_on record_again

mark_moves :
    (hits : Bool) (signature : Text) (now : ℕ) (old : Option Transaction)
    → row_phase old
      ⟶? row_phase (if hits then Option.map (submitted_row signature now) old else old)
unfolding submitted_row
mark_moves true signature now none = rests
mark_moves false signature now none = rests
mark_moves true signature now (some row) = mark_signed signature row.signature
mark_moves false signature now (some row) = rests

pub unchanged :
    (key : Text) (a b : Db) → b.transactions ≡ a.transactions → phase_of key a ⟶? phase_of key b
unchanged key a b e =
    subst (λ rows. phase_of key a ⟶? row_phase (select_by_key key rows)) (sym e) rests

insert-transactions :
    (id : ℕ) (c : Claim) (now : ℕ) (a b : Db)
    → insert_statement id c now a ≡ ok (tt, b)
    → (b.transactions ≡ a.transactions)
      ⊎ (b.transactions ≡ a.transactions ++ pending_row id now c ∷ [])
unfolding insert_statement
insert-transactions id c now a b h = ground arith

insert_moves :
    (key : Text) (id : ℕ) (c : Claim) (now : ℕ) (a b : Db)
    → insert_statement id c now a ≡ ok (tt, b)
    → phase_of key a ⟶? phase_of key b
unfolding pending_row
insert_moves key id c now a b h = elim (insert-transactions id c now a b h) [
  | inl same ↦ unchanged key a b same
  | inr added ↦
      subst (λ rows. phase_of key a ⟶? row_phase (select_by_key key rows)) (sym added)
        (subst (λ o. phase_of key a ⟶? row_phase o)
          (sym (select-append key a.transactions (pending_row id now c)))
          (claim_moves (text_eq c.idempotency_key key) (select_by_key key a.transactions)
            (pending_row id now c) refl))
]

update-transactions :
    (k signature : Text) (now : ℕ) (a b : Db)
    → update_statement k signature now a ≡ ok (tt, b)
    → b.transactions ≡ update_rows k signature now a.transactions
unfolding update_statement
update-transactions k signature now a b h = ground arith

update_moves :
    (key k signature : Text) (now : ℕ) (a b : Db)
    → update_statement k signature now a ≡ ok (tt, b)
    → phase_of key a ⟶? phase_of key b
update_moves key k signature now a b h =
    subst (λ rows. phase_of key a ⟶? row_phase (select_by_key key rows))
      (sym (update-transactions k signature now a b h))
      (subst (λ o. phase_of key a ⟶? row_phase o)
        (sym (select-update_rows k key signature now a.transactions))
        (mark_moves (text_eq k key) signature now (select_by_key key a.transactions)))

-- Each statement is at most one move of the diagram for each key.
pub Step-⟶? : (key : Text) {a b : Db} → Step a b → phase_of key a ⟶? phase_of key b
Step-⟶? key (registers {a} {b} id pubkey label now i h) =
    unchanged key a b (upsert-transactions id pubkey label now a b i h)
Step-⟶? key (looks_up_wallet {a} {b} pubkey now o h) =
    unchanged key a b (ap (λ d. d.transactions) (sym (find_id_keeps pubkey now a b o h)))
Step-⟶? key (looks_up {a} {b} k now o h) =
    unchanged key a b (ap (λ d. d.transactions) (sym (find_keeps k now a b o h)))
Step-⟶? key (claims {a} {b} id c now h) = insert_moves key id c now a b h
Step-⟶? key (marks {a} {b} k signature now h) = update_moves key k signature now a b h
Step-⟶? key (lists {a} {b} wallet limit before now records h) =
    unchanged key a b
      (ap (λ d. d.transactions) (sym (list_keeps wallet limit before now a b records h)))
