-- ===== src/Handlers/Tx/Unrecorded.antt =====
-- A broadcast whose signature is not recorded.
use xend.Common.{◌+◌, suc, ◌≡◌, ◌∙◌, ap, sym, some, none, false, ok, err, arith}
use xend.Common.Text.{Text, text}
use xend.Common.Bytes.{Bytes}
use xend.Error.{database}
use xend.Runtime.{World, Host, advance, ◌>>=◌, pure, lift, run_sql}
use xend.Runtime.Moves.{Moves, Moves-run, Moves-bind, Moves-pure}
use xend.Runtime.Sends.{sends, SameSends, SameSends-IsPreorder, SameSends-run_sql}
use xend.Store.{Transaction}
use xend.Store.Transactions.{select_by_key, find_by_idempotency, find_statement, mark_submitted}
use xend.Chain.Adapter.{ChainAdapter}
use xend.Chain.Adapter.Laws.{LeavesTables, SendsOnBroadcast}
use xend.Crates.{Base64}
use xend.Handlers.Tx.{SubmitRequest, SubmitResponse, relay, resume, after_lookup, submit}
use xend.Handlers.Tx.Awaits.Sending.{Takes}

-- The world in which a submission of a claimed key records its signature.
abbrev pub broadcasted : ChainAdapter → Bytes → World → World
broadcasted chain signed w = (chain.broadcast signed (chain.validate_signed signed (advance w)).1).1

module _ (host : Host) (base64 : Base64) (chain : ChainAdapter) (tables : LeavesTables chain)
    (law : SendsOnBroadcast chain) where
  -- The submission whose update fails.
  first_attempt :
      (req : SubmitRequest) (signed : Bytes) (row : Transaction) (signature message : Text)
      (w v u : World)
      → base64.decode req.signed ≡ some signed
      → host.fault w.step ≡ none
      → host.fault u.step ≡ some (record { applied = false; message = message })
      → select_by_key req.idempotency_key w.db.transactions ≡ some row
      → row.signature ≡ none
      → chain.validate_signed signed (advance w) ≡ (ok tt, v)
      → chain.broadcast signed v ≡ (ok signature, u)
      → ((submit host base64 chain req w).0 ≡ err (database message))
        × ((submit host base64 chain req w).1.db ≡ w.db)
        × (sends (submit host base64 chain req w).1.sent ≡ suc (sends w.sent))
  unfolding submit after_lookup resume relay find_by_idempotency find_statement mark_submitted
      run_sql ◌>>=◌
  first_attempt req signed row signature message w v u decoded up down found unsigned valid sent =
      let same : u.db ≡ w.db =
        Moves-run (tables.broadcast signed) sent
        ∙ Moves-run (tables.validate_signed signed) valid in
      let count : sends u.sent ≡ suc (sends w.sent) =
        law.delivered signed v signature u sent
        ∙ ap suc (Moves-run (law.validate_signed signed) valid) in
      (ground arith, ground arith, ground arith)

  recording-SameSends :
      (key signature : Text) (r : SubmitResponse)
      → Moves SameSends (mark_submitted host key signature >>= λ _. pure r)
  unfolding mark_submitted
  recording-SameSends key signature r =
      Moves-bind SameSends-IsPreorder _ _ (SameSends-run_sql host _)
        (λ _. Moves-pure SameSends-IsPreorder r)

  sends-relay :
      (key : Text) (signed : Bytes) (w : World)
      → Takes chain signed
      → sends (relay host base64 chain key signed w).1.sent ≡ suc (sends w.sent)
  unfolding relay ◌>>=◌
  sends-relay key signed w takes =
      let (v, valid) = takes.validates w in
      let (t, u, sent) = takes.broadcasts v in
      rw (valid, sent)
        ((recording-SameSends key t (record { signature = t; status = text "submitted" })).at u
          ∙ law.delivered signed v t u sent
          ∙ ap suc (Moves-run (law.validate_signed signed) valid))

  -- Where a key is claimed and has no signature, a submission that finds it so sends a transaction.
  sends-submit_of_claimed :
      (req : SubmitRequest) (signed : Bytes) (row : Transaction) (w : World)
      → base64.decode req.signed ≡ some signed
      → host.fault w.step ≡ none
      → select_by_key req.idempotency_key w.db.transactions ≡ some row
      → row.signature ≡ none
      → Takes chain signed
      → sends (submit host base64 chain req w).1.sent ≡ suc (sends w.sent)
  unfolding submit after_lookup resume find_by_idempotency find_statement run_sql ◌>>=◌ lift
  sends-submit_of_claimed req signed row w decoded up found unsigned takes =
      rw (decoded, up, found, unsigned) (sends-relay req.idempotency_key signed (advance w) takes)

  -- Where a key is claimed and has no signature, and the statement that records the signature after
  -- the broadcast fails before it is applied, the submission fails with an internal error and leaves
  -- the tables as they were. So a retry of the key broadcasts again: after it two transactions have
  -- been sent, whatever the retry returns. The adapter leaves the tables and sends on a broadcast, it
  -- accepts the bytes of both requests and the network takes them, and the two lookups of the key
  -- have no fault.
  pub submit_unrecorded :
      (req retry : SubmitRequest) (signed again : Bytes) (row : Transaction) (message : Text)
      (w : World)
      → base64.decode req.signed ≡ some signed
      → base64.decode retry.signed ≡ some again
      → retry.idempotency_key ≡ req.idempotency_key
      → Takes chain signed
      → Takes chain again
      → select_by_key req.idempotency_key w.db.transactions ≡ some row
      → row.signature ≡ none
      → host.fault w.step ≡ none
      → host.fault (broadcasted chain signed w).step
        ≡ some (record { applied = false; message = message })
      → host.fault (submit host base64 chain req w).1.step ≡ none
      → let (r, w') = submit host base64 chain req w in
        (r ≡ err (database message))
        × (w'.db ≡ w.db)
        × (sends (submit host base64 chain retry w').1.sent ≡ 2 + sends w.sent)
  submit_unrecorded req retry signed again row message w decoded decoded_again same takes
        takes_again found unsigned up down up_again =
      let w' = (submit host base64 chain req w).1 in
      let (v, valid) = takes.validates (advance w) in
      let (t, u, sent) = takes.broadcasts v in
      let recording : broadcasted chain signed w ≡ u =
        ap (λ r. (chain.broadcast signed r.1).1) valid ∙ ap (λ r. r.1) sent in
      let (failed, tables_kept, count) =
        first_attempt req signed row t message w v u decoded up
          (ap (λ (x : World). host.fault x.step) (sym recording) ∙ down) found unsigned valid
          sent in
      let still : select_by_key retry.idempotency_key w'.db.transactions ≡ some row =
        rw (same, tables_kept) found in
      (
        failed,
        tables_kept,
        omega (
          arith,
          sends-submit_of_claimed retry again row w' decoded_again up_again still unsigned
              takes_again,
          count,
        ),
      )
