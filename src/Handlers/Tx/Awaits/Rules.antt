-- ===== src/Handlers/Tx/Awaits/Rules.antt =====
-- A relation that holds along each await of a submission.
use xend.Common.{ℕ, Option, none, some}
use xend.Common.Text.{Text}
use xend.Common.Bytes.{Bytes}
use xend.Crates.{Base64}
use xend.Runtime.{World, Host, new_uuid, run_sql}
use xend.Runtime.Moves.{Moves}
use xend.Runtime.Program.Awaits.{EachMoves}
use xend.Store.Wallets.{find_id_by_pubkey}
use xend.Store.Transactions.{Existing, Claim, insert_statement, find_by_idempotency, mark_submitted}
use xend.Chain.Adapter.{ChainAdapter}
use xend.Handlers.Tx.{SubmitRequest}
use xend.Handlers.Tx.Awaits.{
  relay_program, resume_program, claim_program, sender_program, after_lookup_program,
  decoded_program, submit_program,
}

pub record SubmitRules (host : Host) (chain : ChainAdapter) (R : World → World → Type 0)
    (key : Text) : Type 0 where
  pub uuid : Moves R (new_uuid host)
  pub sender : (pubkey : Text) → Moves R (find_id_by_pubkey host pubkey)
  pub lookup : Moves R (find_by_idempotency host key)
  pub claim : (id : ℕ) (c : Claim) → Moves R (run_sql host (insert_statement id c))
  pub mark : (signature : Text) → Moves R (mark_submitted host key signature)
  pub validate_signed : (signed : Bytes) → Moves R (chain.validate_signed signed)
  pub broadcast : (signed : Bytes) → Moves R (chain.broadcast signed)

module _ (host : Host) (base64 : Base64) (chain : ChainAdapter) (R : World → World → Type 0)
    (req : SubmitRequest) (rules : SubmitRules host chain R req.idempotency_key) where
  relay-EachMoves :
      (signed : Bytes) → EachMoves R (relay_program host base64 chain req.idempotency_key signed)
  unfolding relay_program
  relay-EachMoves signed = (
    rules.validate_signed signed,
    λ u. (rules.broadcast signed, λ signature. (rules.mark signature, λ _. tt)),
  )

  resume-EachMoves :
      (signed : Bytes) (status : Text) (o : Option Text)
      → EachMoves R (resume_program host base64 chain req.idempotency_key signed status o)
  unfolding resume_program
  resume-EachMoves signed status none = relay-EachMoves signed
  resume-EachMoves signed status (some signature) = tt

  claim-EachMoves :
      (signed : Bytes) (wallet : Option ℕ)
      → EachMoves R (claim_program host base64 chain req signed wallet)
  unfolding claim_program
  claim-EachMoves signed wallet =
      (rules.uuid, λ id. (rules.claim id _, λ _. relay-EachMoves signed))

  sender-EachMoves :
      (signed : Bytes) (o : Option Text)
      → EachMoves R (sender_program host base64 chain req signed o)
  unfolding sender_program
  sender-EachMoves signed none = claim-EachMoves signed none
  sender-EachMoves signed (some pubkey) =
      (rules.sender pubkey, λ wallet. claim-EachMoves signed wallet)

  after_lookup-EachMoves :
      (signed : Bytes) (o : Option Existing)
      → EachMoves R (after_lookup_program host base64 chain req signed o)
  unfolding after_lookup_program
  after_lookup-EachMoves signed none = sender-EachMoves signed req.pubkey
  after_lookup-EachMoves signed (some e) = resume-EachMoves signed e.status e.signature

  decoded-EachMoves : (o : Option Bytes) → EachMoves R (decoded_program host base64 chain req o)
  unfolding decoded_program
  decoded-EachMoves none = tt
  decoded-EachMoves (some signed) = (rules.lookup, λ found. after_lookup-EachMoves signed found)

  pub submit-EachMoves : EachMoves R (submit_program host base64 chain req)
  unfolding submit_program
  submit-EachMoves = decoded-EachMoves (base64.decode req.signed)
