-- ===== src/Tests/Handlers.antt =====
-- Runs of the handlers on concrete requests.
use mathlib.Core.List.{Mem}
use xend.Common.{ℕ, ◌≤◌, length, suc, ◌≡◌, refl, [], ◌∷◌, none, some, ok, replicate, arith}
use xend.Common.Text.{Text, text, text_eq}
use xend.Runtime.{World, advance, ◌>>=◌, pure, lift, run_sql, new_uuid}
use xend.Runtime.Sends.{sends}
use xend.Store.Wallets.{find_id_by_pubkey, find_id_statement, select_by_pubkey}
use xend.Handlers.Tx.Shown.{submit-history}
use xend.Handlers.Wallet.{HistoryResponse, history, validate_solana_pubkey, limit_of}
use xend.Store.Transactions.{
  matching, select_by_key, find_by_idempotency, find_statement, insert_pending, insert_statement,
  pending_row, mark_submitted, update_statement, update_rows, submitted_row, refers, taken,
}
use xend.Chain.Solana.Methods.{validate_signed, verified, broadcast}
use xend.Chain.Solana.Methods.Witness.{solana-LeavesTables, solana-SendsOnBroadcast}
use xend.Chain.Solana.Rpc.{post, signature_of}
use xend.Handlers.Tx.{
  SubmitRequest, SubmitResponse, submit, after_lookup, claim, relay, resume, sender_wallet,
}
use xend.Handlers.Tx.Stored.{Stored, submit-Stored, submit_of_Stored}
use xend.Handlers.Tx.Retries.{Unsigned, Retries, FaultFree, submit_all, submit_exactly_once}
use xend.Tests.{host, base58, rfc3339, base64, chain, sdk, json, network, adapter, start, request}

abbrev submitted : World
submitted = (submit host base64 chain request start).1

abbrev response : SubmitResponse
response = record { signature = text "sig"; status = text "submitted" }

abbrev retry : SubmitRequest
retry = record request { signed = text "tx2" }

first_submit : submit host base64 chain request start ≡ (ok response, submitted)
unfolding submit ◌>>=◌ pure lift run_sql new_uuid text text_eq select_by_key find_by_idempotency
    find_statement insert_pending insert_statement pending_row mark_submitted update_statement
    update_rows submitted_row refers taken validate_signed verified broadcast post signature_of
    after_lookup claim relay resume sender_wallet
first_submit = refl

retry-Retries : Retries base64 (text "k1") retry
unfolding text
retry-Retries = record { same_key = refl; signed = text "tx2"; decodes = refl }

start-Unsigned : Unsigned (text "k1") start.db
unfolding select_by_key
start-Unsigned row e = absurd (ground arith)

host-FaultFree : (n : ℕ) → FaultFree host n
host-FaultFree n i le = refl

submit_exactly_once_example :
    ((submit_all host base64 chain (request ∷ retry ∷ retry ∷ []) start).0
      ≡ ok response ∷ replicate 2 (ok response))
    × (sends (submit_all host base64 chain (request ∷ retry ∷ retry ∷ []) start).1.sent
        ≡ suc (sends start.sent))
submit_exactly_once_example =
    submit_exactly_once host base64 chain (solana-LeavesTables host sdk json network base64 adapter)
      (solana-SendsOnBroadcast host sdk json network base64 adapter) request (retry ∷ retry ∷ [])
      start submitted response start-Unsigned first_submit (retry-Retries, (retry-Retries, tt))
      (host-FaultFree submitted.step)

submit-Stored_example : Stored (text "k1") response submitted.db
submit-Stored_example =
    submit-Stored host base64 chain (solana-LeavesTables host sdk json network base64 adapter)
      request start submitted response first_submit

submitted-Stored : Stored (text "k1") response submitted.db
unfolding submit ◌>>=◌ pure lift run_sql new_uuid text text_eq select_by_key find_by_idempotency
    find_statement insert_pending insert_statement pending_row mark_submitted update_statement
    update_rows submitted_row refers taken validate_signed verified broadcast post signature_of
    after_lookup claim relay resume sender_wallet
submitted-Stored = record {
  row = record {
    id = 1;
    wallet_id = none;
    idempotency_key = text "k1";
    signature = some (text "sig");
    status = text "submitted";
    to_address = some (text "bob");
    amount = some (text "7");
    mint = none;
    created_at = 2;
    updated_at = 4;
  };
  found = refl;
  signature = refl;
  status = refl;
}

retry_decodes : base64.decode retry.signed ≡ some (text "tx2")
unfolding text
retry_decodes = refl

submit_of_Stored_example :
    submit host base64 chain retry submitted ≡ (ok response, advance submitted)
submit_of_Stored_example =
    submit_of_Stored host base64 chain retry submitted response (text "tx2") submitted-Stored
      retry_decodes refl

-- The sender has a wallet.
abbrev alice : Text
alice = replicate 32 49

abbrev with_wallet : World
with_wallet = record start {
  db = record {
    wallets = record { id = 3; pubkey = alice; label = none; created_at = 0 } ∷ [];
    transactions = [];
  };
}

abbrev by_alice : SubmitRequest
by_alice = record request { pubkey = some (alice) }

abbrev by_alice_submitted : World
by_alice_submitted = (submit host base64 chain by_alice with_wallet).1

alice_submits : submit host base64 chain by_alice with_wallet ≡ (ok response, by_alice_submitted)
unfolding submit ◌>>=◌ pure lift run_sql new_uuid text text_eq select_by_key find_by_idempotency
    find_statement insert_pending insert_statement pending_row mark_submitted update_statement
    update_rows submitted_row refers taken validate_signed verified broadcast post signature_of
    after_lookup claim relay resume sender_wallet find_id_by_pubkey find_id_statement
    select_by_pubkey
alice_submits = refl

alice_known :
    select_by_pubkey (alice) with_wallet.db.wallets
    ≡ some (record { id = 3; pubkey = alice; label = none; created_at = 0 })
unfolding text text_eq select_by_pubkey
alice_known = refl

key_new : select_by_key (text "k1") with_wallet.db.transactions ≡ none
unfolding select_by_key
key_new = refl

room_for_all : length (matching 3 none by_alice_submitted.db.transactions) ≤ limit_of none
unfolding submit ◌>>=◌ pure lift run_sql new_uuid text text_eq select_by_key find_by_idempotency
    find_statement insert_pending insert_statement pending_row mark_submitted update_statement
    update_rows submitted_row refers taken validate_signed verified broadcast post signature_of
    after_lookup claim relay resume sender_wallet find_id_by_pubkey find_id_statement
    select_by_pubkey matching limit_of
room_for_all = omega arith

alice_valid : validate_solana_pubkey base58 alice ≡ ok tt
unfolding validate_solana_pubkey
alice_valid = refl

submit-history_example :
    (answer : HistoryResponse) × (v : World) × (created : ℕ) × (history host base58 chain rfc3339
        alice
        (record { limit = none; before = none })
        by_alice_submitted
      ≡ (ok answer, v))
    × Mem
        (record {
          signature = text "sig";
          status = text "submitted";
          to = some (text "bob");
          amount = some (text "7");
          mint = none;
          created_at = created;
        })
        answer.transactions
submit-history_example =
    submit-history host base64 chain (solana-LeavesTables host sdk json network base64 adapter)
      base58 rfc3339 by_alice alice none
      (record { id = 3; pubkey = alice; label = none; created_at = 0 }) with_wallet
      by_alice_submitted response refl alice_valid alice_known key_new alice_submits (λ i le. refl)
      room_for_all
