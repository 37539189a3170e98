-- ===== src/Handlers/Tx/Awaits/Ends.antt =====
-- How many awaits a submission has.
use xend.Common.{
  ℕ, ◌≤◌, ◌<◌, ◌≡◌, List, [], ◌∷◌, Option, none, some, Result, map, length, length-map, sym,
}
use mathlib.Core.Path.{subst}
use xend.Common.Text.{Text}
use xend.Common.Bytes.{Bytes}
use xend.Error.{AppError}
use xend.Runtime.{Host, World}
use xend.Runtime.Program.{interleave}
use xend.Runtime.Program.Turns.{EndsWithin, AllEndWithin, turns_of, outcome_at, interleave_ends}
use xend.Store.Transactions.{Existing}
use xend.Chain.Adapter.{ChainAdapter}
use xend.Crates.{Base64}
use xend.Handlers.Tx.{SubmitRequest, SubmitResponse}
use xend.Handlers.Tx.Awaits.{
  relay_program, resume_program, claim_program, sender_program, after_lookup_program,
  decoded_program, submit_program,
}

module _ (host : Host) (base64 : Base64) (chain : ChainAdapter) where
  resume-EndsWithin :
      (key : Text) (signed : Bytes) (status : Text) (o : Option Text)
      → EndsWithin (resume_program host base64 chain key signed status o) 6
  unfolding resume_program relay_program
  resume-EndsWithin key signed status none = λ _ signature _. tt
  resume-EndsWithin key signed status (some s) = tt

  sender-EndsWithin :
      (req : SubmitRequest) (signed : Bytes) (o : Option Text)
      → EndsWithin (sender_program host base64 chain req signed o) 6
  unfolding sender_program claim_program relay_program
  sender-EndsWithin req signed none = λ id _ _ signature _. tt
  sender-EndsWithin req signed (some pubkey) = λ wallet id _ _ signature _. tt

  pub after_lookup-EndsWithin :
      (req : SubmitRequest) (signed : Bytes) (o : Option Existing)
      → EndsWithin (after_lookup_program host base64 chain req signed o) 6
  unfolding after_lookup_program
  after_lookup-EndsWithin req signed none = sender-EndsWithin req signed req.pubkey
  after_lookup-EndsWithin req signed (some e) =
      resume-EndsWithin req.idempotency_key signed e.status e.signature

  decoded-EndsWithin :
      (req : SubmitRequest) (o : Option Bytes)
      → EndsWithin (decoded_program host base64 chain req o) 7
  unfolding decoded_program
  decoded-EndsWithin req none = tt
  decoded-EndsWithin req (some signed) = λ found. after_lookup-EndsWithin req signed found

  pub submit-EndsWithin :
      (req : SubmitRequest) → EndsWithin (submit_program host base64 chain req) 7
  unfolding submit_program
  submit-EndsWithin req = decoded-EndsWithin req (base64.decode req.signed)

  pub submits-EndWithin :
      (reqs : List SubmitRequest) → AllEndWithin 7 (map (submit_program host base64 chain) reqs)
  submits-EndWithin [] = tt
  submits-EndWithin (req ∷ reqs) = (submit-EndsWithin req, submits-EndWithin reqs)

  -- A submission has at most seven awaits: of any that race, each has ended, with an answer or
  -- an error, as soon as it had seven turns, whatever turns the others had and whatever the database
  -- and the network did.
  submit_ends :
      (reqs : List SubmitRequest) (i : ℕ) (schedule : List ℕ) (w : World)
      → i < length reqs
      → 7 ≤ turns_of i schedule
      → (r : Result SubmitResponse AppError) × (outcome_at i
            (interleave schedule (map (submit_program host base64 chain) reqs) w).0
          ≡ some r)
  submit_ends reqs i schedule w lt le =
      interleave_ends 7 i schedule (map (submit_program host base64 chain) reqs) w
        (submits-EndWithin reqs)
        (subst (λ n. i < n) (sym (length-map (submit_program host base64 chain) reqs)) lt) le
