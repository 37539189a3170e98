-- ===== src/Store/Steps.antt =====
-- Statements one after the other, from any number of requests in any interleaving: a request runs
-- each of its statements alone, and what lies between them is not protected by a transaction.
use mathlib.Core.Path.{subst}
use xend.Common.{
  ℕ, ◌≡◌, refl, sym, ap, ◌∙◌, List, Option, none, some, ok, arith, Bool-cases, Option-cases, inl,
  inr,
}
use xend.Common.Text.{Text, text_eq}
use xend.Store.{Db, Transaction}
use xend.Store.Wallets.{select_by_pubkey, upsert_statement, find_id_statement}
use xend.Store.Transactions.{
  Claim, Existing, Record, select_by_key, find_statement, insert_statement, update_statement,
  list_statement, submitted_row, pending_row,
}
use xend.Store.Transactions.Keys.{select-update_rows, select-append}
use xend.Store.Ledger.{
  IsLedger, upsert_statement-IsLedger, insert_statement-IsLedger, update_statement-IsLedger,
}

-- One statement that returns.
pub data Step : Db → Db → Type 0 where
  registers :
      {a b : Db} (id : ℕ) (pubkey : Text) (label : Option Text) (now : ℕ) (i : ℕ)
      → upsert_statement id pubkey label now a ≡ ok (i, b)
      → Step a b
  looks_up_wallet :
      {a b : Db} (pubkey : Text) (now : ℕ) (o : Option ℕ)
      → find_id_statement pubkey now a ≡ ok (o, b)
      → Step a b
  looks_up :
      {a b : Db} (key : Text) (now : ℕ) (o : Option Existing)
      → find_statement key now a ≡ ok (o, b)
      → Step a b
  claims :
      {a b : Db} (id : ℕ) (c : Claim) (now : ℕ)
      → insert_statement id c now a ≡ ok (tt, b)
      → Step a b
  marks :
      {a b : Db} (key signature : Text) (now : ℕ)
      → update_statement key signature now a ≡ ok (tt, b)
      → Step a b
  lists :
      {a b : Db} (wallet limit : ℕ) (before : Option ℕ) (now : ℕ) (records : List Record)
      → list_statement wallet limit before now a ≡ ok (records, b)
      → Step a b

pub data Steps : Db → Db → Type 0 where
  done : {db : Db} → Steps db db
  one_more : {a b c : Db} → Steps a b → Step b c → Steps a c

pub Steps-trans : {a b c : Db} → Steps a b → Steps b c → Steps a c
Steps-trans p done = p
Steps-trans p (one_more q s) = one_more (Steps-trans p q) s

-- The reading statements leave the tables.
pub find_id_keeps :
    (pubkey : Text) (now : ℕ) (a b : Db) (o : Option ℕ)
    → find_id_statement pubkey now a ≡ ok (o, b)
    → a ≡ b
unfolding find_id_statement
find_id_keeps pubkey now a b o h = ground arith

pub find_keeps :
    (key : Text) (now : ℕ) (a b : Db) (o : Option Existing)
    → find_statement key now a ≡ ok (o, b)
    → a ≡ b
unfolding find_statement
find_keeps key now a b o h = ground arith

pub list_keeps :
    (wallet limit : ℕ) (before : Option ℕ) (now : ℕ) (a b : Db) (records : List Record)
    → list_statement wallet limit before now a ≡ ok (records, b)
    → a ≡ b
unfolding list_statement
list_keeps wallet limit before now a b records h = ground arith

Step-IsLedger : {a b : Db} → Step a b → IsLedger a → IsLedger b
Step-IsLedger (registers {a} {b} id pubkey label now i h) l =
    upsert_statement-IsLedger id pubkey label now a b i h l
Step-IsLedger (looks_up_wallet {a} {b} pubkey now o h) l =
    subst IsLedger (find_id_keeps pubkey now a b o h) l
Step-IsLedger (looks_up {a} {b} key now o h) l = subst IsLedger (find_keeps key now a b o h) l
Step-IsLedger (claims {a} {b} id c now h) l = insert_statement-IsLedger id c now a b h l
Step-IsLedger (marks {a} {b} key signature now h) l =
    update_statement-IsLedger key signature now a b h l
Step-IsLedger (lists {a} {b} wallet limit before now records h) l =
    subst IsLedger (list_keeps wallet limit before now a b records h) l

-- The tables that statements lead to from a ledger are a ledger: they have one row for each idempotency key, at
-- most one row for each signature, one wallet for each public key, and no transaction of an unknown
-- wallet, whatever the statements are and however the requests that run them are interleaved.
pub Steps-IsLedger : {a b : Db} → Steps a b → IsLedger a → IsLedger b
Steps-IsLedger done l = l
Steps-IsLedger (one_more p s) l = Step-IsLedger s (Steps-IsLedger p l)

-- The row of a claim later: what the claim wrote is there, and a signature does not go away.
pub record Continues (r s : Transaction) : Type 0 where
  pub id : s.id ≡ r.id
  pub wallet_id : s.wallet_id ≡ r.wallet_id
  pub to_address : s.to_address ≡ r.to_address
  pub amount : s.amount ≡ r.amount
  pub mint : s.mint ≡ r.mint
  pub created_at : s.created_at ≡ r.created_at
  pub signed : s.signature ≡ none → r.signature ≡ none

Continues-refl : (r : Transaction) → Continues r r
Continues-refl r = record {
  id = refl;
  wallet_id = refl;
  to_address = refl;
  amount = refl;
  mint = refl;
  created_at = refl;
  signed = λ e. e;
}

Continues-trans : (r s t : Transaction) → Continues r s → Continues s t → Continues r t
Continues-trans r s t p q = record {
  id = q.id ∙ p.id;
  wallet_id = q.wallet_id ∙ p.wallet_id;
  to_address = q.to_address ∙ p.to_address;
  amount = q.amount ∙ p.amount;
  mint = q.mint ∙ p.mint;
  created_at = q.created_at ∙ p.created_at;
  signed = λ e. p.signed (q.signed e);
}

submitted-Continues :
    (signature : Text) (now : ℕ) (r : Transaction) → Continues r (submitted_row signature now r)
unfolding submitted_row
submitted-Continues signature now r = record {
  id = refl;
  wallet_id = refl;
  to_address = refl;
  amount = refl;
  mint = refl;
  created_at = refl;
  signed = λ e. absurd (ground arith);
}

-- The key has a row that continues the given one.
abbrev pub Keeps : Text → Transaction → Db → Type 0
Keeps key r db = (s : Transaction) × (select_by_key key db.transactions ≡ some s) × Continues r s

unchanged :
    (key : Text) (r : Transaction) (a b : Db)
    → select_by_key key a.transactions ≡ some r
    → b.transactions ≡ a.transactions
    → Keeps key r b
unchanged key r a b e p = (r, ap (select_by_key key) p ∙ e, Continues-refl r)

insert-Keeps :
    (key : Text) (r : Transaction) (id : ℕ) (c : Claim) (now : ℕ) (a b : Db)
    → insert_statement id c now a ≡ ok (tt, b)
    → select_by_key key a.transactions ≡ some r
    → Keeps key r b
unfolding insert_statement
insert-Keeps key r id c now a b h e =
    (r, ground (arith, select-append key a.transactions (pending_row id now c)), Continues-refl r)

update-Keeps :
    (key : Text) (r : Transaction) (k signature : Text) (now : ℕ) (a b : Db)
    → update_statement k signature now a ≡ ok (tt, b)
    → select_by_key key a.transactions ≡ some r
    → Keeps key r b
unfolding update_statement
update-Keeps key r k signature now a b h e = elim (Bool-cases (text_eq k key)) [
  | inl same ↦ (
    submitted_row signature now r,
    ground (arith, select-update_rows k key signature now a.transactions),
    submitted-Continues signature now r,
  )
  | inr other ↦
      (r, ground (arith, select-update_rows k key signature now a.transactions), Continues-refl r)
]

pub upsert-transactions :
    (id : ℕ) (pubkey : Text) (label : Option Text) (now : ℕ) (a b : Db) (i : ℕ)
    → upsert_statement id pubkey label now a ≡ ok (i, b)
    → b.transactions ≡ a.transactions
unfolding upsert_statement
upsert-transactions id pubkey label now a b i h =
    elim (Option-cases (select_by_pubkey pubkey a.wallets)) [
      | inl new ↦ ground arith
      | inr (w, old) ↦ ground arith
    ]

Step-Keeps :
    (key : Text) (r : Transaction) {a b : Db}
    → Step a b
    → select_by_key key a.transactions ≡ some r
    → Keeps key r b
Step-Keeps key r (registers {a} {b} id pubkey label now i h) e =
    unchanged key r a b e (upsert-transactions id pubkey label now a b i h)
Step-Keeps key r (looks_up_wallet {a} {b} pubkey now o h) e =
    unchanged key r a b e (ap (λ d. d.transactions) (sym (find_id_keeps pubkey now a b o h)))
Step-Keeps key r (looks_up {a} {b} k now o h) e =
    unchanged key r a b e (ap (λ d. d.transactions) (sym (find_keeps k now a b o h)))
Step-Keeps key r (claims {a} {b} id c now h) e = insert-Keeps key r id c now a b h e
Step-Keeps key r (marks {a} {b} k signature now h) e = update-Keeps key r k signature now a b h e
Step-Keeps key r (lists {a} {b} wallet limit before now records h) e =
    unchanged key r a b e
      (ap (λ d. d.transactions) (sym (list_keeps wallet limit before now a b records h)))

-- A row of the ledger stays: after any statements, however the requests that run them are
-- interleaved, its key has a row with the same id, wallet, recipient, amount, mint and creation
-- time, and a signature that it had is not removed (another one may take its place).
pub Steps-Keeps :
    (key : Text) (r : Transaction) {a b : Db}
    → Steps a b
    → select_by_key key a.transactions ≡ some r
    → Keeps key r b
Steps-Keeps key r done e = (r, e, Continues-refl r)
Steps-Keeps key r (one_more p s) e =
    let (r₁, e₁, c₁) = Steps-Keeps key r p e in
    let (r₂, e₂, c₂) = Step-Keeps key r₁ s e₁ in (r₂, e₂, Continues-trans r r₁ r₂ c₁ c₂)
