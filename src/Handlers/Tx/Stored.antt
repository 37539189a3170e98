-- ===== src/Handlers/Tx/Stored.antt =====
-- What `submit` leaves in the ledger, and how it answers a key that is there.
use mathlib.Core.Path.{subst₂}
use xend.Common.{
  ℕ, ◌≡◌, refl, sym, ap, ◌∙◌, Option, none, some, ok, arith, Option-cases, inl, inr, Bool-cases,
  any,
}
use xend.Common.Text.{Text, text, text_eq_refl}
use xend.Common.Bytes.{Bytes}
use xend.Runtime.{World, Host, ◌>>=◌, run_sql, advance}
use xend.Runtime.Moves.{Moves-run}
use xend.Runtime.Success.{on_success, pure-eq-ok, run_sql-eq-ok}
use xend.Store.{Db, Transaction}
use xend.Store.Transactions.{
  Existing, existing, Claim, select_by_key, find_by_idempotency, insert_pending, mark_submitted,
  find_statement, insert_statement, update_statement, submitted_row, pending_row, has_key,
}
use xend.Store.Transactions.Keys.{HasKey, select-update_rows, select-append, any-has_key}
use xend.Chain.Adapter.{ChainAdapter}
use xend.Chain.Adapter.Laws.{LeavesTables}
use xend.Crates.{Base64}
use xend.Handlers.Tx.{SubmitRequest, SubmitResponse, claim, relay, resume, after_lookup, submit}

-- The ledger has the response under the key.
pub record Stored (key : Text) (r : SubmitResponse) (db : Db) : Type 0 where
  pub row : Transaction
  pub found : select_by_key key db.transactions ≡ some row
  pub signature : row.signature ≡ some r.signature
  pub status : row.status ≡ r.status

-- An accepted update has written the row of its key.
update-row :
    (key signature : Text) (now : ℕ) (db db' : Db) (row : Transaction)
    → select_by_key key db.transactions ≡ some row
    → update_statement key signature now db ≡ ok (tt, db')
    → select_by_key key db'.transactions ≡ some (submitted_row signature now row)
unfolding update_statement
update-row key signature now db db' row e h =
    ground (arith, select-update_rows key key signature now db.transactions, text_eq_refl key)

-- After an accepted claim the key has a row.
pub insert-HasKey :
    (id : ℕ) (c : Claim) (now : ℕ) (db db' : Db)
    → insert_statement id c now db ≡ ok (tt, db')
    → HasKey c.idempotency_key db'
insert-HasKey id c now db db' h =
    elim (Bool-cases (any (has_key c.idempotency_key) db.transactions)) [
      | inl old ↦
          let (row, e) = any-has_key c.idempotency_key db.transactions old in
          (row, unfold insert_statement in ground arith)
      | inr new ↦ elim (Option-cases (select_by_key c.idempotency_key db.transactions)) [
        | inl missing ↦ (
          pending_row id now c,
          unfold insert_statement pending_row in
              ground (
                arith,
                select-append c.idempotency_key db.transactions (pending_row id now c),
                text_eq_refl c.idempotency_key,
              ),
        )
        | inr (row, e) ↦ (
          row,
          unfold insert_statement in
              ground
                (arith, select-append c.idempotency_key db.transactions (pending_row id now c)),
        )
      ]
    ]

Stored-subst :
    {key : Text} {r r' : SubmitResponse} {w w' : World}
    → (r ≡ r') × (w ≡ w')
    → Stored key r w.db
    → Stored key r' w'.db
Stored-subst {key} (p, q) s = subst₂ (λ r w. Stored key r w.db) p q s

-- A lookup returns what the ledger has, and changes nothing.
pub find-eq-ok :
    (host : Host) (key : Text) (w w' : World) (found : Option Existing)
    → find_by_idempotency host key w ≡ (ok found, w')
    → (found ≡ existing (select_by_key key w'.db.transactions)) × (w'.db ≡ w.db)
unfolding find_by_idempotency find_statement
find-eq-ok host key w w' found e =
    let ran = run_sql-eq-ok host (find_statement key) w found w' e in
    let answer = ran.returned in ground arith

module _ (host : Host) (base64 : Base64) (chain : ChainAdapter) (law : LeavesTables chain) where
  -- The row of the key after a relay that succeeds.
  pub relay-row :
      (key : Text) (signed : Bytes) (w w' : World) (r : SubmitResponse) (row : Transaction)
      → select_by_key key w.db.transactions ≡ some row
      → relay host base64 chain key signed w ≡ (ok r, w')
      → (now : ℕ) × (select_by_key key w'.db.transactions
          ≡ some (submitted_row r.signature now row))
        × (r.status ≡ text "submitted")
  unfolding relay mark_submitted
  relay-row key signed w w' r row found e = on_success _ _ w r w' e λ _ u validated rest.
      on_success _ _ u r w' rest λ signature v sent rest.
        on_success _ _ v r w' rest λ _ x marked rest.
          let ran = run_sql-eq-ok host _ v tt x marked in
          let same : v.db ≡ w.db =
            Moves-run (law.broadcast signed) sent
            ∙ Moves-run (law.validate_signed signed) validated in
          let (answer, end) = pure-eq-ok _ r x w' rest in
          let written =
            update-row key signature _ v.db x.db row
              (ap (λ d. select_by_key key d.transactions) same ∙ found) ran.returned in
          (
            host.now v.step,
            ap (λ (z : World). select_by_key key z.db.transactions) (sym end)
                ∙ written
                ∙ ap
                    (λ (a : SubmitResponse). some (submitted_row a.signature (host.now v.step) row))
                    answer,
            ap (λ (a : SubmitResponse). a.status) (sym answer),
          )

  relay-Stored :
      (key : Text) (signed : Bytes) (w w' : World) (r : SubmitResponse)
      → HasKey key w.db
      → relay host base64 chain key signed w ≡ (ok r, w')
      → Stored key r w'.db
  relay-Stored key signed w w' r (row, found) e =
      let (now, written, status) = relay-row key signed w w' r row found e in
      record {
        row = submitted_row r.signature now row;
        found = written;
        signature = unfold submitted_row in refl;
        status = unfold submitted_row in sym status;
      }

  claim-HasKey :
      (req : SubmitRequest) (w w' : World)
      → claim host base64 chain req w ≡ (ok tt, w')
      → HasKey req.idempotency_key w'.db
  unfolding claim insert_pending
  claim-HasKey req w w' e = on_success _ _ w tt w' e λ wallet u _ rest.
      on_success _ _ u tt w' rest λ id v _ inserted.
        insert-HasKey id _ _ v.db w'.db (run_sql-eq-ok host _ v tt w' inserted).returned

  resume-Stored :
      (key : Text) (signed : Bytes) (row : Transaction) (signature : Option Text) (w w' : World)
      (r : SubmitResponse)
      → select_by_key key w.db.transactions ≡ some row
      → row.signature ≡ signature
      → resume host base64 chain key signed row.status signature w ≡ (ok r, w')
      → Stored key r w'.db
  unfolding resume
  resume-Stored key signed row none w w' r found s e = relay-Stored key signed w w' r (row, found) e
  resume-Stored key signed row (some signature) w w' r found s e =
      Stored-subst (pure-eq-ok _ r w w' e)
        (record { row = row; found = found; signature = s; status = refl })

  after_lookup-Stored :
      (req : SubmitRequest) (signed : Bytes) (o : Option Transaction) (w w' : World)
      (r : SubmitResponse)
      → select_by_key req.idempotency_key w.db.transactions ≡ o
      → after_lookup host base64 chain req signed (existing o) w ≡ (ok r, w')
      → Stored req.idempotency_key r w'.db
  unfolding after_lookup
  after_lookup-Stored req signed none w w' r found e = on_success _ _ w r w' e λ _ u claimed rest.
      relay-Stored req.idempotency_key signed u w' r (claim-HasKey req w u claimed) rest
  after_lookup-Stored req signed (some row) w w' r found e =
      resume-Stored req.idempotency_key signed row row.signature w w' r found refl e

  -- A submission that succeeds has recorded its key with the signature and the status that it
  -- returned, whatever the ledger held before, where the adapter leaves the tables.
  pub submit-Stored :
      (req : SubmitRequest) (w w' : World) (r : SubmitResponse)
      → submit host base64 chain req w ≡ (ok r, w')
      → Stored req.idempotency_key r w'.db
  unfolding submit
  submit-Stored req w w' r e = on_success _ _ w r w' e λ signed u decoded rest.
      on_success _ _ u r w' rest λ found v looked_up rest.
        let (answer, same) = find-eq-ok host req.idempotency_key u v found looked_up in
        after_lookup-Stored req signed _ v w' r refl (rw answer at rest)

module _ (host : Host) (base64 : Base64) (chain : ChainAdapter) where
  -- A key with a recorded signature is answered from the ledger, if the payload of the new request is
  -- base64 and the lookup meets no fault: the recorded signature and status are returned, no request
  -- is sent, and the tables stay, whatever the payload decodes to.
  pub submit_of_Stored :
      (req : SubmitRequest) (w : World) (r : SubmitResponse) (signed : Bytes)
      → Stored req.idempotency_key r w.db
      → base64.decode req.signed ≡ some signed
      → host.fault w.step ≡ none
      → submit host base64 chain req w ≡ (ok r, advance w)
  unfolding submit after_lookup resume find_by_idempotency find_statement run_sql ◌>>=◌
  submit_of_Stored req w r signed s d h = ground arith
