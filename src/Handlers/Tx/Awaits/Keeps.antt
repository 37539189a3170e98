-- ===== src/Handlers/Tx/Awaits/Keeps.antt =====
-- What each await of a submission keeps of the key's row.
use mathlib.Core.Path.{subst}
use xend.Common.{ℕ, ◌≡◌, refl, sym, ap, ◌∙◌, ◌⊎◌, inl, inr, Option, none, some, ok, arith}
use xend.Common.Text.{Text, text}
use xend.Runtime.{World, Host, M, run_sql}
use xend.Runtime.Moves.{Moves, IgnoresStep, Moves-run_sql}
use xend.Store.{Transaction}
use xend.Store.Wallets.{find_id_by_pubkey, find_id_statement}
use xend.Store.Transactions.{
  Existing, Claim, existing, select_by_key, find_by_idempotency, find_statement, insert_statement,
  mark_submitted,
}
use xend.Handlers.Tx.Awaits.Recorded.{Recorded, Recorded-same, insert-Recorded, update-Recorded}
use xend.Chain.Adapter.{ChainAdapter}
use xend.Chain.Adapter.Laws.{LeavesTables, SameDb}
use xend.Crates.{Base64}
use xend.Handlers.Tx.Stored.{find-eq-ok}

pub row_answers :
    {signature : Text} (o : Option Transaction) (e : Existing) (s : Text)
    → ((row : Transaction)
        → o ≡ some row
        → (row.signature ≡ none)
          ⊎ ((row.signature ≡ some signature) × (row.status ≡ text "submitted")))
    → some e ≡ existing o
    → e.signature ≡ some s
    → (s ≡ signature) × (e.status ≡ text "submitted")
row_answers none e s h p q = absurd (ground arith)
row_answers (some row) e s h p q = elim (h row refl) [
  | inl unsigned ↦ absurd (ground arith)
  | inr (signed, status) ↦ (ground arith, ground arith)
]

module _ (key signature : Text) where
  abbrev I : World → Type 0
  I w = Recorded key signature w.db

  abbrev KeepsI : World → World → Type 0
  KeepsI u v = I u → I v

  pub keeps_ignores_step : IgnoresStep KeepsI
  keeps_ignores_step = record { ticks = λ w i. i }

  module _ (host : Host) (base64 : Base64) (chain : ChainAdapter) (law : LeavesTables chain) where
    pub find-Keeps : (k : Text) → Moves KeepsI (find_by_idempotency host k)
    unfolding find_by_idempotency find_statement
    find-Keeps k = Moves-run_sql keeps_ignores_step host _ (record {
      along = λ now w a db e i. Recorded-same key signature w.db db (ground (arith, e)) i;
    })

    pub find_id-Keeps : (pubkey : Text) → Moves KeepsI (find_id_by_pubkey host pubkey)
    unfolding find_id_by_pubkey find_id_statement
    find_id-Keeps pubkey = Moves-run_sql keeps_ignores_step host _ (record {
      along = λ now w a db e i. Recorded-same key signature w.db db (ground (arith, e)) i;
    })

    pub insert-Keeps : (id : ℕ) (c : Claim) → Moves KeepsI (run_sql host (insert_statement id c))
    insert-Keeps id c =
        Moves-run_sql keeps_ignores_step host _
          (record { along = λ now w a db e i. insert-Recorded key signature id now c w.db db e i })

    pub mark-Keeps :
        (k t : Text) → (k ≡ key → t ≡ signature) → Moves KeepsI (mark_submitted host k t)
    unfolding mark_submitted
    mark-Keeps k t same = Moves-run_sql keeps_ignores_step host _ (record {
      along = λ now w a db e i. update-Recorded key signature k t now w.db db same e i;
    })

    pub adapter-Keeps : {A : Type 0} (m : M A) → Moves SameDb m → Moves KeepsI m
    adapter-Keeps m h = record { at = λ w i. subst (Recorded key signature) (sym (h.at w)) i }

    -- A lookup of the key under the invariant.
    pub find-answers :
        (w : World) (e : Existing) (s : Text)
        → I w
        → (find_by_idempotency host key w).0 ≡ ok (some e)
        → e.signature ≡ some s
        → (s ≡ signature) × (e.status ≡ text "submitted")
    find-answers w e s i h q =
        let v : World = (find_by_idempotency host key w).1 in
        let (answer, same) = find-eq-ok host key w v (some e) (λ j. (h j, v)) in
        row_answers (select_by_key key v.db.transactions) e s
          (λ row p. i row (ap (λ d. select_by_key key d.transactions) (sym same) ∙ p)) answer q
