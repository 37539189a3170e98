-- ===== src/Tests/Ledger.antt =====
-- Runs that change the ledger.
use xend.Common.{
  false, ◌==◌, if◌then◌else◌, suc, ◌+◌, ◌≡◌, refl, true, [], ◌∷◌, none, some, ok, err,
}
use xend.Common.Text.{text, text_eq}
use xend.Error.{database}
use xend.Runtime.{Host, World, advance, lift, pure, run_sql, ◌>>=◌}
use xend.Runtime.Sends.{sends}
use xend.Store.{Db, Transaction, empty_db}
use xend.Store.Transactions.{
  Claim, select_by_key, pending_row, submitted_row, update_rows, insert_statement, update_statement,
  refers, taken, find_by_idempotency, find_statement, mark_submitted,
}
use xend.Store.Steps.{Steps, done, one_more, marks, Keeps, Steps-Keeps}
use xend.Chain.Solana.Methods.{solana, validate_signed, verified, broadcast}
use xend.Chain.Solana.Methods.Witness.{solana-LeavesTables, solana-SendsOnBroadcast}
use xend.Chain.Solana.Rpc.{post, signature_of}
use xend.Handlers.Tx.{SubmitRequest, submit, after_lookup, resume, relay}
use xend.Handlers.Tx.Awaits.Sending.{Takes}
use xend.Chain.Adapter.{ChainAdapter}
use xend.Handlers.Tx.Unrecorded.{broadcasted, submit_unrecorded}
use xend.Handlers.Tx.Duplicate.{submit_duplicate_signature}
use xend.Tests.{host, base64, chain, sdk, json, network, adapter, start, request}

abbrev claim : Claim
claim = record {
  wallet_id = none;
  idempotency_key = text "k1";
  to_address = none;
  amount = none;
  mint = none;
}

abbrev row : Transaction
row = record {
  id = 1;
  wallet_id = none;
  idempotency_key = text "k1";
  signature = none;
  status = text "pending";
  to_address = none;
  amount = none;
  mint = none;
  created_at = 5;
  updated_at = 5;
}

abbrev claimed : Db
claimed = record empty_db { transactions = row ∷ [] }

abbrev recorded : Db
recorded = record empty_db {
  transactions =
      record row { signature = some (text "sig"); status = text "submitted"; updated_at = 6 } ∷ [];
}

claiming : insert_statement 1 claim 5 empty_db ≡ ok (tt, claimed)
unfolding insert_statement pending_row refers
claiming = refl

marking : update_statement (text "k1") (text "sig") 6 claimed ≡ ok (tt, recorded)
unfolding update_statement update_rows submitted_row taken text text_eq
marking = refl

mark_again : Steps claimed recorded
mark_again = one_more done (marks (text "k1") (text "sig") 6 marking)

row_found : select_by_key (text "k1") claimed.transactions ≡ some row
unfolding select_by_key text text_eq
row_found = refl

Steps-Keeps_example : Keeps (text "k1") row recorded
Steps-Keeps_example = Steps-Keeps (text "k1") row mark_again row_found

-- The key `k1` is claimed, and `k2` has the signature.
abbrev conflicting : World
conflicting = record start {
  db = record {
    wallets = [];
    transactions =
        row
        ∷ record row {
          id = 2;
          idempotency_key = text "k2";
          signature = some (text "sig");
          status = text "submitted";
        }
        ∷ [];
  };
}

k1_found : select_by_key (text "k1") conflicting.db.transactions ≡ some row
unfolding select_by_key text text_eq
k1_found = refl

sig_taken : taken (text "k1") (text "sig") conflicting.db.transactions ≡ true
unfolding taken text text_eq
sig_taken = refl

tx_decoded : base64.decode request.signed ≡ some (text "tx")
unfolding text
tx_decoded = refl

tx_valid : chain.validate_signed (text "tx") (advance conflicting) ≡ (ok tt, advance conflicting)
unfolding validate_signed verified lift text
tx_valid = refl

abbrev after_broadcast : World
after_broadcast = (chain.broadcast (text "tx") (advance conflicting)).1

tx_sent : chain.broadcast (text "tx") (advance conflicting) ≡ (ok (text "sig"), after_broadcast)
unfolding broadcast ◌>>=◌ lift post signature_of text text_eq
tx_sent = refl

submit_duplicate_signature_example :
    ((submit host base64 chain request conflicting).0
      ≡ err (
          database
            (text "duplicate key value violates unique constraint \"transactions_signature_key\"")))
    × ((submit host base64 chain request conflicting).1.db ≡ conflicting.db)
    × (sends (submit host base64 chain request conflicting).1.sent ≡ suc (sends conflicting.sent))
submit_duplicate_signature_example =
    submit_duplicate_signature host base64 chain
      (solana-LeavesTables host sdk json network base64 adapter)
      (solana-SendsOnBroadcast host sdk json network base64 adapter) request (text "tx") row
      (text "sig") conflicting (advance conflicting) after_broadcast tx_decoded refl refl k1_found
      refl sig_taken tx_valid tx_sent

-- The update at step 2 is lost.
abbrev flaky : Host
flaky = record host {
  fault = λ n. if n == 2 then some (record { applied = false; message = text "lost" }) else none;
}

abbrev pending : World
pending = record start { db = claimed }

abbrev flaky_chain : ChainAdapter
flaky_chain = solana flaky sdk json network base64 adapter

-- The same key with other bytes.
abbrev again : SubmitRequest
again = record request { signed = text "tx2" }

again_decoded : base64.decode again.signed ≡ some (text "tx2")
unfolding text
again_decoded = refl

flaky_chain-Takes : Takes flaky_chain (text "tx")
unfolding validate_signed verified broadcast post signature_of lift pure ◌>>=◌ text text_eq
flaky_chain-Takes = record { validates = λ w. (w, refl); broadcasts = λ w. (_, _, refl) }

flaky_chain-Takes_again : Takes flaky_chain (text "tx2")
unfolding validate_signed verified broadcast post signature_of lift pure ◌>>=◌ text text_eq
flaky_chain-Takes_again = record { validates = λ w. (w, refl); broadcasts = λ w. (_, _, refl) }

update_lost :
    flaky.fault (broadcasted flaky_chain (text "tx") pending).step
    ≡ some (record { applied = false; message = text "lost" })
unfolding validate_signed verified broadcast ◌>>=◌ lift post signature_of text text_eq
update_lost = refl

retry_looks_up : flaky.fault (submit flaky base64 flaky_chain request pending).1.step ≡ none
unfolding submit after_lookup resume relay find_by_idempotency find_statement mark_submitted run_sql
    validate_signed verified broadcast ◌>>=◌ lift post signature_of select_by_key text text_eq
retry_looks_up = refl

submit_unrecorded_example :
    let (r, w') = submit flaky base64 flaky_chain request pending in
    (r ≡ err (database (text "lost")))
    × (w'.db ≡ pending.db)
    × (sends (submit flaky base64 flaky_chain again w').1.sent ≡ 2 + sends pending.sent)
submit_unrecorded_example =
    submit_unrecorded flaky base64 flaky_chain
      (solana-LeavesTables flaky sdk json network base64 adapter)
      (solana-SendsOnBroadcast flaky sdk json network base64 adapter) request again (text "tx")
      (text "tx2") row (text "lost") pending tx_decoded again_decoded refl flaky_chain-Takes
      flaky_chain-Takes_again row_found refl refl update_lost retry_looks_up
