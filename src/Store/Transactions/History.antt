-- ===== src/Store/Transactions/History.antt =====
-- What the listing of a wallet's transactions returns.
use xend.Common.{
  ℕ, suc, ◌≤◌, ◌<◌, ◌≡◌, refl, sym, ap, ◌∙◌, true, List, [], ◌∷◌, ◌++◌, drop, take-append-drop,
  Option, none, some, ok, take, min, length, length-take, All, All-take, Bool-cases, inl, inr,
  arith, ltb, ◌&&◌,
}
use mathlib.Core.Path.{subst}
use mathlib.Core.List.{Perm}
use mathlib.Core.List.Perm
use xend.Store.{Db, Transaction}
use xend.Store.Transactions.{
  Record, matching, insert_desc, sort_desc, list_statement, owned_by, is_before, broadcast_record,
}

abbrev pub IsNoNewer : Record → Record → Type 0
IsNoNewer r s = s.created_at ≤ r.created_at

-- Each record is at least as new as all that follow it.
abbrev pub IsNewestFirst : List Record → Type 0
IsNewestFirst [] = Unit
IsNewestFirst (r ∷ rows) = All (IsNoNewer r) rows × IsNewestFirst rows

abbrev pub IsBefore : Option ℕ → Record → Type 0
IsBefore none r = Unit
IsBefore (some cursor) r = r.created_at < cursor

module _ {κ} (P : Record → Type κ) where
  pub All-insert_desc :
      (r : Record) (rows : List Record) → P r → All P rows → All P (insert_desc r rows)
  unfolding insert_desc
  All-insert_desc r [] p h = (p, tt)
  All-insert_desc r (s ∷ rows) p (q, h) = elim (Bool-cases (ltb r.created_at s.created_at)) [
    | inl older ↦ rw older (q, All-insert_desc r rows p h)
    | inr newer ↦ rw newer (p, (q, h))
  ]

  pub All-sort_desc : (rows : List Record) → All P rows → All P (sort_desc rows)
  unfolding sort_desc
  All-sort_desc [] h = tt
  All-sort_desc (r ∷ rows) (p, h) = All-insert_desc r (sort_desc rows) p (All-sort_desc rows h)

pub IsNoNewer-trans :
    (r s : Record) (rows : List Record)
    → s.created_at ≤ r.created_at
    → All (IsNoNewer s) rows
    → All (IsNoNewer r) rows
IsNoNewer-trans r s [] h k = tt
IsNoNewer-trans r s (t ∷ rows) h (p, k) = (omega arith, IsNoNewer-trans r s rows h k)

pub insert_desc-IsNewestFirst :
    (r : Record) (rows : List Record) → IsNewestFirst rows → IsNewestFirst (insert_desc r rows)
unfolding insert_desc
insert_desc-IsNewestFirst r [] h = (tt, tt)
insert_desc-IsNewestFirst r (s ∷ rows) (p, h) = elim (Bool-cases (ltb r.created_at s.created_at)) [
  | inl older ↦
      rw older
        (All-insert_desc (IsNoNewer s) r rows (ground arith) p, insert_desc-IsNewestFirst r rows h)
  | inr newer ↦ rw newer ((ground arith, IsNoNewer-trans r s rows (ground arith) p), (p, h))
]

pub sort_desc-IsNewestFirst : (rows : List Record) → IsNewestFirst (sort_desc rows)
unfolding sort_desc
sort_desc-IsNewestFirst [] = tt
sort_desc-IsNewestFirst (r ∷ rows) =
    insert_desc-IsNewestFirst r (sort_desc rows) (sort_desc-IsNewestFirst rows)

insert_desc-Perm : (r : Record) (rows : List Record) → Perm (insert_desc r rows) (r ∷ rows)
unfolding insert_desc
insert_desc-Perm r [] = Perm.refl (r ∷ [])
insert_desc-Perm r (s ∷ rows) = elim (Bool-cases (ltb r.created_at s.created_at)) [
  | inl older ↦ rw older (Perm.trans (Perm.cons s (insert_desc-Perm r rows)) (Perm.swap r s rows))
  | inr newer ↦ rw newer (Perm.refl (r ∷ s ∷ rows))
]

pub sort_desc-Perm : (rows : List Record) → Perm (sort_desc rows) rows
unfolding sort_desc
sort_desc-Perm [] = Perm.refl []
sort_desc-Perm (r ∷ rows) =
    Perm.trans (insert_desc-Perm r (sort_desc rows)) (Perm.cons r (sort_desc-Perm rows))

length-insert_desc :
    (r : Record) (rows : List Record) → length (insert_desc r rows) ≡ suc (length rows)
unfolding insert_desc
length-insert_desc r [] = refl
length-insert_desc r (s ∷ rows) = ground (arith, length-insert_desc r rows)

pub length-sort_desc : (rows : List Record) → length (sort_desc rows) ≡ length rows
unfolding sort_desc
length-sort_desc [] = refl
length-sort_desc (r ∷ rows) = length-insert_desc r (sort_desc rows) ∙ ap suc (length-sort_desc rows)

cons_record :
    (before : Option ℕ) (row : Transaction) (signature : Option _) (rest : List Record)
    → is_before before row.created_at ≡ true
    → All (IsBefore before) rest
    → All
        (IsBefore before)
        (elim (broadcast_record row signature) [ none ↦ rest | some r ↦ r ∷ rest ])
cons_record before row none rest e h = h
cons_record none row (some s) rest e h = (tt, h)
cons_record (some cursor) row (some s) rest e h = (ground arith, h)

pub matching-IsBefore :
    (wallet : ℕ) (before : Option ℕ) (rows : List Transaction)
    → All (IsBefore before) (matching wallet before rows)
unfolding matching
matching-IsBefore wallet before [] = tt
matching-IsBefore wallet before (row ∷ rows) =
    elim (Bool-cases (owned_by wallet row.wallet_id && is_before before row.created_at)) [
      | inl kept ↦ rw kept (
          cons_record before row row.signature (matching wallet before rows) (ground arith)
            (matching-IsBefore wallet before rows))
      | inr dropped ↦ rw dropped (matching-IsBefore wallet before rows)
    ]

-- What a page of `limit` records promises: with some further records they are the rows that match,
-- in some order, and sorted by time.
pub record IsPage (wallet limit : ℕ) (before : Option ℕ) (db : Db) (records : List Record)
    : Type 0 where
  pub further : List Record
  pub all : Perm (records ++ further) (matching wallet before db.transactions)
  pub newest_first : IsNewestFirst (records ++ further)
  pub before_cursor : All (IsBefore before) records
  pub size : length records ≡ min limit (length (matching wallet before db.transactions))

take-IsPage :
    (wallet limit : ℕ) (before : Option ℕ) (db : Db)
    → IsPage wallet limit before db
        (take limit (sort_desc (matching wallet before db.transactions)))
take-IsPage wallet limit before db = record {
  further = drop limit (sort_desc found);
  all = subst (λ rows. Perm rows found) (sym whole) (sort_desc-Perm found);
  newest_first = subst IsNewestFirst (sym whole) (sort_desc-IsNewestFirst found);
  before_cursor =
      All-take (IsBefore before) limit (sort_desc found)
        (All-sort_desc (IsBefore before) found (matching-IsBefore wallet before db.transactions));
  size = length-take limit (sort_desc found) ∙ ap (min limit) (length-sort_desc found);
}
  where
    found : List Record
    found = matching wallet before db.transactions

    whole : take limit (sort_desc found) ++ drop limit (sort_desc found) ≡ sort_desc found
    whole = take-append-drop limit (sort_desc found)

-- The listing of a wallet leaves the tables alone. Its records come from the rows that match, each
-- one as often as it is there, and no row that is left out is newer than one that is listed. They are
-- the newest first and before the cursor, and there are as many as the limit unless fewer rows match.
pub list_statement-IsPage :
    (wallet limit : ℕ) (before : Option ℕ) (now : ℕ) (db db' : Db) (records : List Record)
    → list_statement wallet limit before now db ≡ ok (records, db')
    → (db' ≡ db) × IsPage wallet limit before db records
unfolding list_statement
list_statement-IsPage wallet limit before now db db' records h = (
  ground arith,
  subst (IsPage wallet limit before db) (ground arith) (take-IsPage wallet limit before db),
)
