-- ===== src/Handlers/Tx/Once.antt =====
-- How often `submit` broadcasts.
use xend.Common.{Option, none, some, arith}
use xend.Common.Text.{Text}
use xend.Common.Bytes.{Bytes}
use xend.Runtime.{Host}
use xend.Runtime.Moves.{Moves, Moves-bind, Moves-pure, Moves-lift, Moves-new_uuid}
use xend.Runtime.Sends.{
  SameSends, SameSends-IsPreorder, SameSends-IgnoresStep, SameSends-run_sql, SendsAtMost,
  SendsAtMost-bind, SendsAtMost-then, SendsAtMost_of_SameSends, SendsAtMost_mono,
}
use xend.Store.Transactions.{Existing, find_by_idempotency, insert_pending, mark_submitted}
use xend.Store.Wallets.{find_id_by_pubkey}
use xend.Chain.Adapter.{ChainAdapter}
use xend.Chain.Adapter.Laws.{SendsOnBroadcast}
use xend.Crates.{Base64}
use xend.Handlers.Tx.{SubmitRequest, sender_wallet, claim, relay, resume, after_lookup, submit}

module _ (host : Host) (base64 : Base64) (chain : ChainAdapter) (law : SendsOnBroadcast chain) where
  sender_wallet-SameSends : (o : Option Text) → Moves SameSends (sender_wallet host base64 chain o)
  unfolding sender_wallet find_id_by_pubkey
  sender_wallet-SameSends none = Moves-pure SameSends-IsPreorder none
  sender_wallet-SameSends (some pubkey) = SameSends-run_sql host _

  pub claim-SameSends : (req : SubmitRequest) → Moves SameSends (claim host base64 chain req)
  unfolding claim insert_pending
  claim-SameSends req =
      Moves-bind SameSends-IsPreorder _ _ (sender_wallet-SameSends req.pubkey) λ wallet.
        Moves-bind SameSends-IsPreorder _ _ (Moves-new_uuid SameSends-IgnoresStep host)
          λ id. SameSends-run_sql host _

  relay-SendsAtMost :
      (key : Text) (signed : Bytes) → SendsAtMost 1 (relay host base64 chain key signed)
  unfolding relay mark_submitted
  relay-SendsAtMost key signed = SendsAtMost-then 1 _ _ (law.validate_signed signed) λ _.
      SendsAtMost-bind 1 0 _ _ (law.broadcast signed) λ signature.
        SendsAtMost-then 0 _ _ (SameSends-run_sql host _)
          λ _. SendsAtMost_of_SameSends _ (Moves-pure SameSends-IsPreorder _)

  after_lookup-SendsAtMost :
      (req : SubmitRequest) (signed : Bytes) (o : Option Existing)
      → SendsAtMost 1 (after_lookup host base64 chain req signed o)
  unfolding after_lookup
  after_lookup-SendsAtMost req signed none =
      SendsAtMost-then 1 _ _ (claim-SameSends req) λ _. relay-SendsAtMost req.idempotency_key signed
  after_lookup-SendsAtMost req signed (some e) = resume-SendsAtMost e.signature
    where
      resume-SendsAtMost :
          (s : Option Text)
          → SendsAtMost 1 (resume host base64 chain req.idempotency_key signed e.status s)
      resume-SendsAtMost none = unfold resume in relay-SendsAtMost req.idempotency_key signed
      resume-SendsAtMost (some s) =
          unfold resume in
          SendsAtMost_mono 0 1 _ (omega arith)
            (SendsAtMost_of_SameSends _ (Moves-pure SameSends-IsPreorder _))

  -- One call of `submit` sends at most one transaction to the network, on every path, errors and
  -- database faults
  -- included, where only the adapter's `broadcast` sends.
  pub submit-SendsAtMost : (req : SubmitRequest) → SendsAtMost 1 (submit host base64 chain req)
  unfolding submit find_by_idempotency
  submit-SendsAtMost req = SendsAtMost-then 1 _ _ (Moves-lift SameSends-IsPreorder _) λ signed.
      SendsAtMost-then 1 _ _ (SameSends-run_sql host _)
        λ found. after_lookup-SendsAtMost req signed found
