-- ===== src/Handlers/Tx/Awaits/Alone.antt =====
-- Run alone, the program is the handler.
use xend.Common.{ℕ, ◌≡◌, refl, sym, ◌∙◌, Option, none, some, ok_or}
use xend.Common.Text.{Text, text}
use xend.Common.Bytes.{Bytes}
use xend.Error.{bad_request}
use xend.Runtime.{World, Host, lift, ◌>>=◌}
use xend.Runtime.Agrees.{Agrees, bind-Agrees, bind_assoc, pure_bind, lift_bind, lift_fails}
use xend.Runtime.Program.{run}
use xend.Store.Transactions.{Existing, find_by_idempotency, insert_pending}
use xend.Chain.Adapter.{ChainAdapter}
use xend.Crates.{Base64}
use xend.Handlers.Tx.{SubmitRequest, sender_wallet, claim, relay, resume, after_lookup, submit}
use xend.Handlers.Tx.Awaits.{
  relay_program, resume_program, claim_program, sender_program, after_lookup_program,
  decoded_program, submit_program,
}

module _ (host : Host) (base64 : Base64) (chain : ChainAdapter) where
  relay-Agrees :
      (key : Text) (signed : Bytes)
      → Agrees
          (run (relay_program host base64 chain key signed))
          (relay host base64 chain key signed)
  unfolding relay_program relay run
  relay-Agrees key signed w = refl

  resume-Agrees :
      (key : Text) (signed : Bytes) (status : Text) (s : Option Text)
      → Agrees
          (run (resume_program host base64 chain key signed status s))
          (resume host base64 chain key signed status s)
  unfolding resume_program resume run
  resume-Agrees key signed status none w = relay-Agrees key signed w
  resume-Agrees key signed status (some s) w = refl

  claim-Agrees :
      (req : SubmitRequest) (signed : Bytes) (wallet : Option ℕ)
      → Agrees (run (claim_program host base64 chain req signed wallet)) (
          insert_pending host (record {
            wallet_id = wallet;
            idempotency_key = req.idempotency_key;
            to_address = req.to;
            amount = req.amount;
            mint = req.mint;
          })
          >>= λ _. relay host base64 chain req.idempotency_key signed)
  unfolding claim_program insert_pending run
  claim-Agrees req signed wallet w =
      bind-Agrees _ _ _ (λ id. bind-Agrees _ _ _ (λ _. relay-Agrees req.idempotency_key signed)) w
      ∙ sym (bind_assoc _ _ _ w)

  sender-Agrees :
      (req : SubmitRequest) (signed : Bytes) (o : Option Text)
      → Agrees (run (sender_program host base64 chain req signed o)) (
          sender_wallet host base64 chain o >>= λ wallet.
          insert_pending host (record {
            wallet_id = wallet;
            idempotency_key = req.idempotency_key;
            to_address = req.to;
            amount = req.amount;
            mint = req.mint;
          })
          >>= λ _. relay host base64 chain req.idempotency_key signed)
  unfolding sender_program sender_wallet run
  sender-Agrees req signed none w = claim-Agrees req signed none w ∙ sym (pure_bind none _ w)
  sender-Agrees req signed (some pubkey) w =
      bind-Agrees _ _ _ (λ wallet. claim-Agrees req signed wallet) w

  after_lookup-Agrees :
      (req : SubmitRequest) (signed : Bytes) (o : Option Existing)
      → Agrees
          (run (after_lookup_program host base64 chain req signed o))
          (after_lookup host base64 chain req signed o)
  unfolding after_lookup_program after_lookup claim
  after_lookup-Agrees req signed (some e) w =
      resume-Agrees req.idempotency_key signed e.status e.signature w
  after_lookup-Agrees req signed none w =
      sender-Agrees req signed req.pubkey w ∙ sym (bind_assoc _ _ _ w)

  decoded-Agrees :
      (req : SubmitRequest) (o : Option Bytes)
      → Agrees (run (decoded_program host base64 chain req o)) (
          lift (ok_or o (bad_request (text "signed transaction is not valid base64"))) >>= λ signed.
          find_by_idempotency host req.idempotency_key
          >>= after_lookup host base64 chain req signed)
  unfolding decoded_program run
  decoded-Agrees req none w = sym (lift_fails _ _ w)
  decoded-Agrees req (some signed) w =
      bind-Agrees _ _ _ (λ found. after_lookup-Agrees req signed found) w
      ∙ sym (lift_bind signed _ w)

  -- The handler is its program, run with no other request between: in every world it has the same
  -- result and leaves the same world, on every path, errors and database faults included.
  pub run-submit_program :
      (req : SubmitRequest) (w : World)
      → run (submit_program host base64 chain req) w ≡ submit host base64 chain req w
  unfolding submit_program submit
  run-submit_program req w = decoded-Agrees req (base64.decode req.signed) w
