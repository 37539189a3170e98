-- ===== src/Handlers/Tx/Duplicate.antt =====
-- A claimed key whose transaction is recorded under another key.
use xend.Common.{suc, ◌≡◌, ap, ◌∙◌, true, some, none, ok, err, any, arith}
use xend.Common.Text.{Text, text}
use xend.Common.Bytes.{Bytes}
use xend.Error.{database}
use xend.Runtime.{World, Host, advance, ◌>>=◌, run_sql}
use xend.Runtime.Moves.{Moves-run}
use xend.Runtime.Sends.{sends}
use xend.Store.{Transaction}
use xend.Store.Transactions.{
  select_by_key, find_by_idempotency, find_statement, mark_submitted, update_statement, taken,
  has_key,
}
use xend.Store.Transactions.Keys.{select-any}
use xend.Chain.Adapter.{ChainAdapter}
use xend.Chain.Adapter.Laws.{LeavesTables, SendsOnBroadcast}
use xend.Crates.{Base64}
use xend.Handlers.Tx.{SubmitRequest, relay, resume, after_lookup, submit}

module _ (host : Host) (base64 : Base64) (chain : ChainAdapter) (tables : LeavesTables chain)
    (law : SendsOnBroadcast chain) where
  -- The same signed bytes under a second key: where the key is claimed and has no signature, and the
  -- network answers the broadcast with a signature that another key has, the submission fails with
  -- an internal error although the transaction was sent again, and the tables stay as they were. So
  -- each retry of the key sends it once more.
  pub submit_duplicate_signature :
      (req : SubmitRequest) (signed : Bytes) (row : Transaction) (signature : Text) (w v u : World)
      → base64.decode req.signed ≡ some signed
      → host.fault w.step ≡ none
      → host.fault u.step ≡ none
      → select_by_key req.idempotency_key w.db.transactions ≡ some row
      → row.signature ≡ none
      → taken req.idempotency_key signature w.db.transactions ≡ true
      → chain.validate_signed signed (advance w) ≡ (ok tt, v)
      → chain.broadcast signed v ≡ (ok signature, u)
      → ((submit host base64 chain req w).0
          ≡ err (
              database (
                text
                  "duplicate key value violates unique constraint \"transactions_signature_key\"")))
        × ((submit host base64 chain req w).1.db ≡ w.db)
        × (sends (submit host base64 chain req w).1.sent ≡ suc (sends w.sent))
  unfolding submit after_lookup resume relay find_by_idempotency find_statement mark_submitted
      update_statement run_sql ◌>>=◌
  submit_duplicate_signature req signed row signature w v u decoded up₁ up₂ found unsigned held
        valid sent =
      let same : u.db ≡ w.db =
        Moves-run (tables.broadcast signed) sent
        ∙ Moves-run (tables.validate_signed signed) valid in
      let known : any (has_key req.idempotency_key) w.db.transactions ≡ true =
        select-any req.idempotency_key w.db.transactions row found in
      let held' : taken req.idempotency_key signature u.db.transactions ≡ true =
        ap (λ d. taken req.idempotency_key signature d.transactions) same ∙ held in
      let known' : any (has_key req.idempotency_key) u.db.transactions ≡ true =
        ap (λ d. any (has_key req.idempotency_key) d.transactions) same ∙ known in
      let count : sends u.sent ≡ suc (sends w.sent) =
        law.delivered signed v signature u sent
        ∙ ap suc (Moves-run (law.validate_signed signed) valid) in
      (ground arith, ground arith, ground arith)
