-- ===== src/Handlers/Tx/Awaits.antt =====
-- `submit` of backend/src/handlers/tx.rs, taken apart at its `.await`s: between two of them the
-- statements of other requests may run.
pub mod Alone
pub mod Rules
pub mod Recorded
pub mod Keeps
pub mod Race
pub mod Ends
pub mod Spends
pub mod Ready
pub mod Completes
pub mod Sending
pub mod Twice
use xend.Common.{ℕ, Option, none, some, ok_or}
use xend.Common.Text.{Text, text}
use xend.Common.Bytes.{Bytes}
use xend.Error.{bad_request}
use xend.Runtime.{Host, new_uuid, run_sql}
use xend.Runtime.Program.{Program, ret, fail, await}
use xend.Store.Wallets.{find_id_by_pubkey}
use xend.Store.Transactions.{Existing, Claim, insert_statement, find_by_idempotency, mark_submitted}
use xend.Chain.Adapter.{ChainAdapter}
use xend.Crates.{Base64}
use xend.Handlers.Tx.{SubmitRequest, SubmitResponse}

module _ (host : Host) (base64 : Base64) (chain : ChainAdapter) where
  unfoldable pub relay_program : Text → Bytes → Program SubmitResponse
  relay_program key signed = await (chain.validate_signed signed) λ _.
      await (chain.broadcast signed) λ signature.
        await (mark_submitted host key signature)
          λ _. ret (record { signature = signature; status = text "submitted" })

  -- A known key.
  unfoldable pub resume_program : Text → Bytes → Text → Option Text → Program SubmitResponse
  resume_program key signed status (some signature) =
      ret (record { signature = signature; status = status })
  resume_program key signed status none = relay_program key signed

  -- A new key, with the sender's wallet. The id is drawn in a turn of its own, so that more orders are
  -- possible than in the source, where the draw and the statement are one await.
  unfoldable pub claim_program : SubmitRequest → Bytes → Option ℕ → Program SubmitResponse
  claim_program req signed wallet_id = await (new_uuid host) λ id.
      await
        (run_sql host (
          insert_statement id (record {
            wallet_id = wallet_id;
            idempotency_key = req.idempotency_key;
            to_address = req.to;
            amount = req.amount;
            mint = req.mint;
          })))
        λ _. relay_program req.idempotency_key signed

  unfoldable pub sender_program : SubmitRequest → Bytes → Option Text → Program SubmitResponse
  sender_program req signed none = claim_program req signed none
  sender_program req signed (some pubkey) =
      await (find_id_by_pubkey host pubkey) λ wallet_id. claim_program req signed wallet_id

  unfoldable pub after_lookup_program :
      SubmitRequest → Bytes → Option Existing → Program SubmitResponse
  after_lookup_program req signed (some e) =
      resume_program req.idempotency_key signed e.status e.signature
  after_lookup_program req signed none = sender_program req signed req.pubkey

  unfoldable pub decoded_program : SubmitRequest → Option Bytes → Program SubmitResponse
  decoded_program req none = fail (bad_request (text "signed transaction is not valid base64"))
  decoded_program req (some signed) =
      await (find_by_idempotency host req.idempotency_key)
        λ found. after_lookup_program req signed found

  unfoldable pub submit_program : SubmitRequest → Program SubmitResponse
  submit_program req = decoded_program req (base64.decode req.signed)
