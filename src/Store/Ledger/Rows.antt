-- ===== src/Store/Ledger/Rows.antt =====
-- The unique constraints of `transactions`: how inserts and updates keep them.
use xend.Common.{
  ℕ, ◌≡◌, refl, ◌∙◌, Bool, false, List, [], ◌∷◌, ◌++◌, Option, none, some, any, arith, Bool-cases,
  Option-cases, inl, inr,
}
use xend.Common.Text.{Text, text_eq, text_eq_iff}
use xend.Store.{Transaction}
use xend.Store.Transactions.{
  Claim, has_key, signed_by, taken, pending_row, submitted_row, update_rows,
}

-- No element clashes with a later one.
abbrev pub Unique : {A : Type 0} → (A → A → Bool) → List A → Type 0
Unique clash [] = Unit
Unique clash (x ∷ xs) = (any (clash x) xs ≡ false) × Unique clash xs

pub any_append :
    {A : Type 0} (t : A → Bool) (xs : List A) (y : A)
    → any t xs ≡ false
    → t y ≡ false
    → any t (xs ++ y ∷ []) ≡ false
any_append t [] y h k = ground arith
any_append t (x ∷ xs) y h k = ground (arith, any_append t xs y)

pub unique_append :
    {A : Type 0} (clash : A → A → Bool) (xs : List A) (y : A)
    → Unique clash xs
    → any (λ x. clash x y) xs ≡ false
    → Unique clash (xs ++ y ∷ [])
unique_append clash [] y u h = (refl, tt)
unique_append clash (x ∷ xs) y (p, u) h =
    (any_append (clash x) xs y p (ground arith), unique_append clash xs y u (ground arith))

abbrev pub same_key : Transaction → Transaction → Bool
same_key r s = has_key r.idempotency_key s

abbrev pub signs : Option Text → Transaction → Bool
signs none s = false
signs (some t) s = signed_by t s.signature

abbrev pub same_signature : Transaction → Transaction → Bool
same_signature r s = signs r.signature s

pub text_eq_sym : (a b : Text) → text_eq a b ≡ text_eq b a
text_eq_sym a b = ground (arith, text_eq_iff a b, text_eq_iff b a)

-- A key that no row has is no row's key.
pub fresh_key :
    (id now : ℕ) (c : Claim) (rows : List Transaction)
    → any (has_key c.idempotency_key) rows ≡ false
    → any (λ x. same_key x (pending_row id now c)) rows ≡ false
unfolding pending_row
fresh_key id now c [] h = refl
fresh_key id now c (r ∷ rows) h =
    ground (arith, text_eq_sym r.idempotency_key c.idempotency_key, fresh_key id now c rows)

pub fresh_signature :
    (id now : ℕ) (c : Claim) (rows : List Transaction)
    → any (λ x. same_signature x (pending_row id now c)) rows ≡ false
unfolding pending_row
fresh_signature id now c [] = refl
fresh_signature id now c (r ∷ rows) = elim (Option-cases r.signature) [
  | inl e ↦ rw e (fresh_signature id now c rows)
  | inr (t, e) ↦ rw e (fresh_signature id now c rows)
]

any_key-update_rows :
    (k key signature : Text) (now : ℕ) (rows : List Transaction)
    → any (has_key k) (update_rows key signature now rows) ≡ any (has_key k) rows
unfolding update_rows submitted_row
any_key-update_rows k key signature now [] = refl
any_key-update_rows k key signature now (r ∷ rows) =
    ground (arith, any_key-update_rows k key signature now rows)

pub update_rows-same_key :
    (key signature : Text) (now : ℕ) (rows : List Transaction)
    → Unique same_key rows
    → Unique same_key (update_rows key signature now rows)
unfolding update_rows submitted_row
update_rows-same_key key signature now [] u = tt
update_rows-same_key key signature now (r ∷ rows) (p, u) = elim (Bool-cases (has_key key r)) [
  | inl here ↦ rw here (
    any_key-update_rows r.idempotency_key key signature now rows ∙ p,
    update_rows-same_key key signature now rows u,
  )
  | inr other ↦ rw other (
    any_key-update_rows r.idempotency_key key signature now rows ∙ p,
    update_rows-same_key key signature now rows u,
  )
]

-- Without a row of the key the update does nothing.
pub update_rows_absent :
    (key signature : Text) (now : ℕ) (rows : List Transaction)
    → any (has_key key) rows ≡ false
    → update_rows key signature now rows ≡ rows
unfolding update_rows
update_rows_absent key signature now [] h = refl
update_rows_absent key signature now (r ∷ rows) h =
    ground (arith, update_rows_absent key signature now rows)

-- Nothing is signed by a signature that is not taken, but the row of the key.
same_signature-update_rows :
    (r : Transaction) (key signature : Text) (now : ℕ) (rows : List Transaction)
    → signed_by signature r.signature ≡ false
    → any (same_signature r) rows ≡ false
    → any (same_signature r) (update_rows key signature now rows) ≡ false
unfolding update_rows submitted_row
same_signature-update_rows r key signature now [] h k = refl
same_signature-update_rows r key signature now (s ∷ rows) h k = elim (Option-cases r.signature) [
  | inl e ↦ ground (arith, same_signature-update_rows r key signature now rows)
  | inr (t, e) ↦
      ground (arith, text_eq_sym t signature, same_signature-update_rows r key signature now rows)
]

untaken_absent :
    (key signature : Text) (rows : List Transaction)
    → any (has_key key) rows ≡ false
    → taken key signature rows ≡ false
    → any (λ s. signed_by signature s.signature) rows ≡ false
unfolding taken
untaken_absent key signature [] h k = refl
untaken_absent key signature (r ∷ rows) h k = ground (arith, untaken_absent key signature rows)

pub update_rows-same_signature :
    (key signature : Text) (now : ℕ) (rows : List Transaction)
    → Unique same_key rows
    → Unique same_signature rows
    → taken key signature rows ≡ false
    → Unique same_signature (update_rows key signature now rows)
unfolding update_rows submitted_row taken
update_rows-same_signature key signature now [] k u h = tt
update_rows-same_signature key signature now (r ∷ rows) (p, k) (q, u) h =
    elim (Bool-cases (has_key key r)) [
      | inl here ↦
          let absent : any (has_key key) rows ≡ false =
            ground (arith, text_eq_iff r.idempotency_key key) in
          rw (here, update_rows_absent key signature now rows absent)
            (untaken_absent key signature rows absent (unfold taken in ground arith), u)
      | inr other ↦ rw other (
        same_signature-update_rows r key signature now rows (ground arith) q,
        update_rows-same_signature key signature now rows k u (ground arith),
      )
    ]
