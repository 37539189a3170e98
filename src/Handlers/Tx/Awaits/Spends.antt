-- ===== src/Handlers/Tx/Awaits/Spends.antt =====
-- How many transactions submissions that race send together.
use xend.Common.{ℕ, ◌+◌, ◌≤◌, List, [], ◌∷◌, Option, none, some, map, length, arith}
use xend.Common.Text.{Text}
use xend.Common.Bytes.{Bytes}
use xend.Crates.{Base64}
use xend.Runtime.{Host, World}
use xend.Runtime.Moves.{Moves-new_uuid}
use xend.Runtime.Sends.{sends, SameSends-run_sql, SameSends-IgnoresStep, SendsAtMost_of_SameSends}
use xend.Runtime.Program.{interleave}
use xend.Runtime.Program.Spends.{SpendsWithin, AllSpendWithin, interleave-sends-le}
use xend.Store.Wallets.{find_id_by_pubkey}
use xend.Store.Transactions.{Existing, find_by_idempotency, mark_submitted}
use xend.Chain.Adapter.{ChainAdapter}
use xend.Chain.Adapter.Laws.{SendsOnBroadcast}
use xend.Handlers.Tx.{SubmitRequest}
use xend.Handlers.Tx.Awaits.{
  relay_program, resume_program, claim_program, sender_program, after_lookup_program,
  decoded_program, submit_program,
}

module _ (host : Host) (base64 : Base64) (chain : ChainAdapter) (law : SendsOnBroadcast chain) where
  relay-SpendsWithin :
      (key : Text) (signed : Bytes) → SpendsWithin (relay_program host base64 chain key signed) 1
  unfolding relay_program mark_submitted
  relay-SpendsWithin key signed = (
    0,
    1,
    omega arith,
    SendsAtMost_of_SameSends _ (law.validate_signed signed),
    λ _. (
      1,
      0,
      omega arith,
      law.broadcast signed,
      λ signature.
          (0, 0, omega arith, SendsAtMost_of_SameSends _ (SameSends-run_sql host _), λ _. tt),
    ),
  )

  resume-SpendsWithin :
      (key : Text) (signed : Bytes) (status : Text) (o : Option Text)
      → SpendsWithin (resume_program host base64 chain key signed status o) 1
  unfolding resume_program
  resume-SpendsWithin key signed status none = relay-SpendsWithin key signed
  resume-SpendsWithin key signed status (some s) = tt

  claim-SpendsWithin :
      (req : SubmitRequest) (signed : Bytes) (o : Option ℕ)
      → SpendsWithin (claim_program host base64 chain req signed o) 1
  unfolding claim_program
  claim-SpendsWithin req signed o = (
    0,
    1,
    omega arith,
    SendsAtMost_of_SameSends _ (Moves-new_uuid SameSends-IgnoresStep host),
    λ id. (
      0,
      1,
      omega arith,
      SendsAtMost_of_SameSends _ (SameSends-run_sql host _),
      λ _. relay-SpendsWithin req.idempotency_key signed,
    ),
  )

  sender-SpendsWithin :
      (req : SubmitRequest) (signed : Bytes) (o : Option Text)
      → SpendsWithin (sender_program host base64 chain req signed o) 1
  unfolding sender_program find_id_by_pubkey
  sender-SpendsWithin req signed none = claim-SpendsWithin req signed none
  sender-SpendsWithin req signed (some pubkey) = (
    0,
    1,
    omega arith,
    SendsAtMost_of_SameSends _ (SameSends-run_sql host _),
    λ wallet. claim-SpendsWithin req signed wallet,
  )

  after_lookup-SpendsWithin :
      (req : SubmitRequest) (signed : Bytes) (o : Option Existing)
      → SpendsWithin (after_lookup_program host base64 chain req signed o) 1
  unfolding after_lookup_program
  after_lookup-SpendsWithin req signed none = sender-SpendsWithin req signed req.pubkey
  after_lookup-SpendsWithin req signed (some e) =
      resume-SpendsWithin req.idempotency_key signed e.status e.signature

  decoded-SpendsWithin :
      (req : SubmitRequest) (o : Option Bytes)
      → SpendsWithin (decoded_program host base64 chain req o) 1
  unfolding decoded_program find_by_idempotency
  decoded-SpendsWithin req none = tt
  decoded-SpendsWithin req (some signed) = (
    0,
    1,
    omega arith,
    SendsAtMost_of_SameSends _ (SameSends-run_sql host _),
    λ found. after_lookup-SpendsWithin req signed found,
  )

  pub submit-SpendsWithin :
      (req : SubmitRequest) → SpendsWithin (submit_program host base64 chain req) 1
  unfolding submit_program
  submit-SpendsWithin req = decoded-SpendsWithin req (base64.decode req.signed)

  submits-SpendWithin :
      (reqs : List SubmitRequest)
      → AllSpendWithin (map (submit_program host base64 chain) reqs) (length reqs)
  submits-SpendWithin [] = tt
  submits-SpendWithin (req ∷ reqs) =
      (1, length reqs, omega arith, submit-SpendsWithin req, submits-SpendWithin reqs)

  -- However submissions are interleaved, they send at most one transaction each to the network, on
  -- every path, errors and database faults included, where only the adapter's `broadcast` sends.
  race-sends-le :
      (reqs : List SubmitRequest) (schedule : List ℕ) (w : World)
      → sends (interleave schedule (map (submit_program host base64 chain) reqs) w).1.sent
        ≤ length reqs + sends w.sent
  race-sends-le reqs schedule w =
      interleave-sends-le schedule (length reqs) (map (submit_program host base64 chain) reqs) w
        (submits-SpendWithin reqs)
