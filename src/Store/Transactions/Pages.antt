-- ===== src/Store/Transactions/Pages.antt =====
-- Pages of a listing that a client joins: the cursor of the next page is the time of the last record
-- of a page.
use xend.Common.{
  ℕ, zero, suc, ◌+◌, ◌≤◌, ◌<◌, ◌≡◌, ◌≢◌, refl, sym, ap, ◌∙◌, true, List, [], ◌∷◌, ◌++◌, Option,
  none, some, ok, take, drop, take-append-take-drop, select, last, All, Bool-cases, Option-cases,
  inl, inr, arith, ltb, if◌then◌else◌,
}
use mathlib.Core.Path.{subst}
use xend.Store.{Db, Transaction}
use xend.Store.Transactions.{Record, matching, insert_desc, sort_desc, list_statement, is_before}
use xend.Store.Transactions.History.{
  IsNoNewer, IsNewestFirst, IsBefore, All-insert_desc, All-sort_desc, sort_desc-IsNewestFirst,
  matching-IsBefore, IsNoNewer-trans,
}

abbrev DiffersFrom : Record → Record → Type 0
DiffersFrom r s = s.created_at ≢ r.created_at

-- No two records have one time.
abbrev pub HasDistinctTimes : List Record → Type 0
HasDistinctTimes [] = Unit
HasDistinctTimes (r ∷ rows) = All (DiffersFrom r) rows × HasDistinctTimes rows

abbrev IsOlder : Record → Record → Type 0
IsOlder r s = s.created_at < r.created_at

abbrev IsStrict : List Record → Type 0
IsStrict [] = Unit
IsStrict (r ∷ rows) = All (IsOlder r) rows × IsStrict rows

insert_desc-HasDistinctTimes :
    (r : Record) (rows : List Record)
    → All (DiffersFrom r) rows
    → HasDistinctTimes rows
    → HasDistinctTimes (insert_desc r rows)
unfolding insert_desc
insert_desc-HasDistinctTimes r [] d h = (tt, tt)
insert_desc-HasDistinctTimes r (s ∷ rows) (d, ds) (p, h) =
    elim (Bool-cases (ltb r.created_at s.created_at)) [
      | inl older ↦ rw older (
        All-insert_desc (DiffersFrom s) r rows (λ e. d (sym e)) p,
        insert_desc-HasDistinctTimes r rows ds h,
      )
      | inr newer ↦ rw newer ((d, ds), (p, h))
    ]

sort_desc-HasDistinctTimes :
    (rows : List Record) → HasDistinctTimes rows → HasDistinctTimes (sort_desc rows)
unfolding sort_desc
sort_desc-HasDistinctTimes [] h = tt
sort_desc-HasDistinctTimes (r ∷ rows) (d, h) =
    insert_desc-HasDistinctTimes r (sort_desc rows) (All-sort_desc (DiffersFrom r) rows d)
      (sort_desc-HasDistinctTimes rows h)

All-IsOlder :
    (r : Record) (rows : List Record)
    → All (IsNoNewer r) rows
    → All (DiffersFrom r) rows
    → All (IsOlder r) rows
All-IsOlder r [] h d = tt
All-IsOlder r (s ∷ rows) (p, h) (q, d) = (omega (arith, q), All-IsOlder r rows h d)

IsStrict-of_distinct :
    (rows : List Record) → IsNewestFirst rows → HasDistinctTimes rows → IsStrict rows
IsStrict-of_distinct [] h d = tt
IsStrict-of_distinct (r ∷ rows) (p, h) (q, d) =
    (All-IsOlder r rows p q, IsStrict-of_distinct rows h d)

-- The records before a time.
abbrev older_than : ℕ → List Record → List Record
older_than c rows = select (λ r. ltb r.created_at c) rows

insert_first :
    (r : Record) (rows : List Record) → All (IsNoNewer r) rows → insert_desc r rows ≡ r ∷ rows
unfolding insert_desc
insert_first r [] h = refl
insert_first r (s ∷ rows) (p, h) = ground arith

All-older_than :
    (P : Record → Type 0) (c : ℕ) (rows : List Record) → All P rows → All P (older_than c rows)
All-older_than P c [] h = tt
All-older_than P c (r ∷ rows) (p, h) = elim (Bool-cases (ltb r.created_at c)) [
  | inl kept ↦ rw kept (p, All-older_than P c rows h)
  | inr dropped ↦ rw dropped (All-older_than P c rows h)
]

older_than-insert_desc :
    (c : ℕ) (r : Record) (rows : List Record)
    → IsNewestFirst rows
    → older_than c (insert_desc r rows)
      ≡ (if ltb r.created_at c then insert_desc r (older_than c rows) else older_than c rows)
unfolding insert_desc
older_than-insert_desc c r [] h = ground arith
older_than-insert_desc c r (s ∷ rows) (p, h) = elim (Bool-cases (ltb r.created_at s.created_at)) [
  | inl older ↦ ground (arith, older_than-insert_desc c r rows h)
  | inr newer ↦
      let le : s.created_at ≤ r.created_at = ground arith in
      ground (
        arith,
        insert_first r (older_than c rows)
            (All-older_than (IsNoNewer r) c rows (IsNoNewer-trans r s rows le p)),
      )
]

older_than-sort_desc :
    (c : ℕ) (rows : List Record) → older_than c (sort_desc rows) ≡ sort_desc (older_than c rows)
unfolding sort_desc
older_than-sort_desc c [] = refl
older_than-sort_desc c (r ∷ rows) =
    older_than-insert_desc c r (sort_desc rows) (sort_desc-IsNewestFirst rows)
    ∙ elim (Bool-cases (ltb r.created_at c)) [
      | inl kept ↦ rw kept (ap (insert_desc r) (older_than-sort_desc c rows))
      | inr dropped ↦ rw dropped (older_than-sort_desc c rows)
    ]

is_before_later :
    (c created : ℕ) (before : Option ℕ)
    → ((t : ℕ) → before ≡ some t → c ≤ t)
    → ltb created c ≡ true
    → is_before before created ≡ true
is_before_later c created none h e = refl
is_before_later c created (some t) h e = ground (arith, h t refl)

-- An earlier cursor narrows the selection.
older_than-matching :
    (wallet c : ℕ) (before : Option ℕ) (rows : List Transaction)
    → ((t : ℕ) → before ≡ some t → c ≤ t)
    → matching wallet (some c) rows ≡ older_than c (matching wallet before rows)
unfolding matching
older_than-matching wallet c before [] h = refl
older_than-matching wallet c before (row ∷ rows) h = elim (Option-cases row.signature) [
  | inl unsigned ↦ rw unsigned (ground (arith, older_than-matching wallet c before rows h))
  | inr (t, e) ↦ rw e (
      ground (
        arith,
        older_than-matching wallet c before rows h,
        is_before_later c row.created_at before h,
      ))
]

All-kept :
    (c : ℕ) (rows : List Record) → All (λ s. s.created_at < c) rows → older_than c rows ≡ rows
All-kept c [] h = refl
All-kept c (r ∷ rows) (p, h) = ground (arith, All-kept c rows h)

-- In a strict listing the records before the last of a page are those after the page.
last-All :
    (P : Record → Type 0) (n : ℕ) (rows : List Record) (r : Record)
    → All P rows
    → last (take n rows) ≡ some r
    → P r
last-All P zero rows r h e = absurd (ground arith)
last-All P (suc n) [] r h e = absurd (ground arith)
last-All P (suc zero) (x ∷ rows) r (p, h) e = subst P (ground arith) p
last-All P (suc (suc n)) (x ∷ []) r (p, h) e = subst P (ground arith) p
last-All P (suc (suc n)) (x ∷ y ∷ rows) r (p, h) e = last-All P (suc n) (y ∷ rows) r h e

older_than-last :
    (n : ℕ) (rows : List Record) (r : Record)
    → IsStrict rows
    → last (take n rows) ≡ some r
    → older_than r.created_at rows ≡ drop n rows
older_than-last zero rows r h e = absurd (ground arith)
older_than-last (suc n) [] r h e = absurd (ground arith)
older_than-last (suc zero) (x ∷ rows) r (p, h) e =
    let same : x ≡ r = ground arith in
    subst (λ q. older_than q.created_at (x ∷ rows) ≡ rows) same
      (ground (arith, All-kept x.created_at rows p))
older_than-last (suc (suc n)) (x ∷ []) r (p, h) e =
    let same : x ≡ r = ground arith in
    subst (λ q. older_than q.created_at (x ∷ []) ≡ []) same (ground arith)
older_than-last (suc (suc n)) (x ∷ y ∷ rows) r (p, h) e =
    let later : r.created_at < x.created_at = last-All (IsOlder x) (suc n) (y ∷ rows) r p e in
    ground (arith, older_than-last (suc n) (y ∷ rows) r h e)

cursor_bound :
    (before : Option ℕ) (r : Record)
    → IsBefore before r
    → (t : ℕ) → before ≡ some t
    → r.created_at ≤ t
cursor_bound none r h t e = absurd (ground arith)
cursor_bound (some u) r h t e = ground arith

next_page :
    (wallet n : ℕ) (before : Option ℕ) (rows : List Transaction) (r : Record)
    → HasDistinctTimes (matching wallet before rows)
    → last (take n (sort_desc (matching wallet before rows))) ≡ some r
    → sort_desc (matching wallet (some r.created_at) rows)
      ≡ drop n (sort_desc (matching wallet before rows))
next_page wallet n before rows r distinct e =
    let found = matching wallet before rows in
    let sorted = sort_desc found in
    let strict : IsStrict sorted =
      IsStrict-of_distinct sorted (sort_desc-IsNewestFirst found)
        (sort_desc-HasDistinctTimes found distinct) in
    let bound : IsBefore before r =
      last-All (IsBefore before) n sorted r
        (All-sort_desc (IsBefore before) found (matching-IsBefore wallet before rows)) e in
    ap sort_desc (older_than-matching wallet r.created_at before rows (cursor_bound before r bound))
    ∙ sym (older_than-sort_desc r.created_at found)
    ∙ older_than-last n sorted r strict e

-- Pages join: where no two of the wallet's records have one time, a page and the page that is asked
-- for with the time of its last record as the cursor are, together, the one page of both limits, so
-- that no record is skipped or listed twice. The tables stay between the two.
pub pages_join :
    (wallet n m : ℕ) (before : Option ℕ) (now₁ now₂ now₃ : ℕ) (db : Db) (page next : List Record)
    (r : Record)
    → HasDistinctTimes (matching wallet before db.transactions)
    → list_statement wallet n before now₁ db ≡ ok (page, db)
    → last page ≡ some r
    → list_statement wallet m (some r.created_at) now₂ db ≡ ok (next, db)
    → list_statement wallet (n + m) before now₃ db ≡ ok (page ++ next, db)
unfolding list_statement
pages_join wallet n m before now₁ now₂ now₃ db page next r distinct p e q =
    let sorted = sort_desc (matching wallet before db.transactions) in
    let first : take n sorted ≡ page = ground arith in
    let second : take m (sort_desc (matching wallet (some r.created_at) db.transactions)) ≡ next =
      ground arith in
    let rest : take m (drop n sorted) ≡ next =
      ap (take m) (sym (next_page wallet n before db.transactions r distinct (ap last first ∙ e)))
      ∙ second in
    ap (λ rows. ok (rows, db))
      (sym (take-append-take-drop n m sorted)
        ∙ ap (λ xs. xs ++ take m (drop n sorted)) first
        ∙ ap (λ ys. page ++ ys) rest)
