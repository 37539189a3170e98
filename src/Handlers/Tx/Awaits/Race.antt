-- ===== src/Handlers/Tx/Awaits/Race.antt =====
-- Submissions of one key that race: the loser of the claim broadcasts too, and the network answers
-- the same bytes with the same signature.
use mathlib.Core.Path.{subst}
use xend.Common.{
  ℕ, ◌≡◌, ◌≢◌, refl, ap, ◌∙◌, ◌⊎◌, inl, inr, List, [], ◌∷◌, Option, none, some, ok, arith, All, map,
  get_elem?,
}
use xend.Common.Text.{Text, text}
use xend.Common.Bytes.{Bytes}
use xend.Runtime.{World, Host}
use xend.Runtime.Moves.{Moves-new_uuid}
use xend.Runtime.Program.{interleave}
use xend.Runtime.Program.Shared.{Safe, AllSafe, AllAnswered, interleave-AllAnswered}
use xend.Runtime.Program.Turns.{outcome_at, answered_at}
use xend.Store.Transactions.{Existing, find_by_idempotency}
use xend.Handlers.Tx.Awaits.Keeps.{
  keeps_ignores_step, find-Keeps, find_id-Keeps, insert-Keeps, mark-Keeps, adapter-Keeps,
  find-answers,
}
use xend.Handlers.Tx.Awaits.Recorded.{Recorded}
use xend.Chain.Adapter.{ChainAdapter}
use xend.Chain.Adapter.Laws.{LeavesTables}
use xend.Crates.{Base64}
use xend.Handlers.Tx.{SubmitRequest, SubmitResponse}
use xend.Handlers.Tx.Retries.{Unsigned}
use xend.Handlers.Tx.Awaits.{
  relay_program, resume_program, claim_program, sender_program, after_lookup_program,
  decoded_program, submit_program,
}

abbrev pub response_of : Text → SubmitResponse
response_of signature = record { signature = signature; status = text "submitted" }

-- What the submissions of a key are answered.
abbrev pub Promised : Text → Text → Text → SubmitResponse → Type 0
Promised key signature k r = k ≡ key → r ≡ response_of signature

-- The network answers the bytes with this signature only.
abbrev pub AnswersOnly : ChainAdapter → Bytes → Text → Type 0
AnswersOnly chain signed signature =
    (w : World) (t : Text) → (chain.broadcast signed w).0 ≡ ok t → t ≡ signature

-- The submission is of another key, or carries the bytes.
abbrev pub Carries : Base64 → Text → Bytes → SubmitRequest → Type 0
Carries base64 key signed req =
    (req.idempotency_key ≢ key) ⊎ (base64.decode req.signed ≡ some signed)

carries :
    (base64 : Base64) {key : Text} {signed : Bytes} (req : SubmitRequest)
    → Carries base64 key signed req
    → req.idempotency_key ≡ key
    → base64.decode req.signed ≡ some signed
carries base64 req (inl other) e = absurd (other e)
carries base64 req (inr decoded) e = decoded

module _ (key signature : Text) where
  abbrev I : World → Type 0
  I w = Recorded key signature w.db

  module _ (host : Host) (base64 : Base64) (chain : ChainAdapter) (law : LeavesTables chain) where
    module _ (signed : Bytes) (only : AnswersOnly chain signed signature) where
      relay-Safe :
          (k : Text) (b : Bytes)
          → (k ≡ key → b ≡ signed)
          → Safe I (Promised key signature k) (relay_program host base64 chain k b)
      unfolding relay_program
      relay-Safe k b h = λ w i. (
        (adapter-Keeps key signature host base64 chain law _ (law.validate_signed b)).at w i,
        λ _ _ u j. (
          (adapter-Keeps key signature host base64 chain law _ (law.broadcast b)).at u j,
          λ t sent v l.
              let same : k ≡ key → t ≡ signature = λ e. only u t (rw (← h e) sent) in
              (
                (mark-Keeps key signature host base64 chain law k t same).at v l,
                λ _ _ e. ap response_of (same e),
              ),
        ),
      )

      resume-Safe :
          (k : Text) (b : Bytes) (status : Text) (o : Option Text)
          → (k ≡ key → b ≡ signed)
          → ((t : Text) → o ≡ some t → k ≡ key → (t ≡ signature) × (status ≡ text "submitted"))
          → Safe I (Promised key signature k) (resume_program host base64 chain k b status o)
      unfolding resume_program
      resume-Safe k b status none h known = relay-Safe k b h
      resume-Safe k b status (some t) h known = λ e. let (p, q) = known t refl e in ground arith

      claim-Safe :
          (req : SubmitRequest) (b : Bytes) (wallet : Option ℕ)
          → (req.idempotency_key ≡ key → b ≡ signed)
          → Safe I
              (Promised key signature req.idempotency_key)
              (claim_program host base64 chain req b wallet)
      unfolding claim_program
      claim-Safe req b wallet h = λ w i. (
        (Moves-new_uuid (keeps_ignores_step key signature) host).at w i,
        λ id _ v j. (
          (insert-Keeps key signature host base64 chain law id _).at v j,
          λ _ _. relay-Safe req.idempotency_key b h,
        ),
      )

      sender-Safe :
          (req : SubmitRequest) (b : Bytes) (o : Option Text)
          → (req.idempotency_key ≡ key → b ≡ signed)
          → Safe I
              (Promised key signature req.idempotency_key)
              (sender_program host base64 chain req b o)
      unfolding sender_program
      sender-Safe req b none h = claim-Safe req b none h
      sender-Safe req b (some pubkey) h = λ w i. (
        (find_id-Keeps key signature host base64 chain law pubkey).at w i,
        λ wallet _. claim-Safe req b wallet h,
      )

      after_lookup-Safe :
          (req : SubmitRequest) (b : Bytes) (o : Option Existing)
          → (req.idempotency_key ≡ key → b ≡ signed)
          → ((e : Existing) (t : Text)
              → o ≡ some e
              → e.signature ≡ some t
              → req.idempotency_key ≡ key
              → (t ≡ signature) × (e.status ≡ text "submitted"))
          → Safe I
              (Promised key signature req.idempotency_key)
              (after_lookup_program host base64 chain req b o)
      unfolding after_lookup_program
      after_lookup-Safe req b none h known = sender-Safe req b req.pubkey h
      after_lookup-Safe req b (some e) h known =
          resume-Safe req.idempotency_key b e.status e.signature h (λ t p q. known e t refl p q)

      decoded-Safe :
          (req : SubmitRequest) (o : Option Bytes)
          → (req.idempotency_key ≡ key → o ≡ some signed)
          → Safe I
              (Promised key signature req.idempotency_key)
              (decoded_program host base64 chain req o)
      unfolding decoded_program
      decoded-Safe req none h = tt
      decoded-Safe req (some b) h = λ w i. (
        (find-Keeps key signature host base64 chain law req.idempotency_key).at w i,
        λ found answer.
            after_lookup-Safe req b found (λ e. ground (arith, h e))
              (λ e t p q same.
                find-answers key signature host base64 chain law w e t i
                  (subst (λ k. (find_by_idempotency host k w).0 ≡ ok (some e)) same
                    (answer ∙ ap ok p))
                  q),
      )

      pub submit-Safe :
          (req : SubmitRequest)
          → Carries base64 key signed req
          → Safe I
              (Promised key signature req.idempotency_key)
              (submit_program host base64 chain req)
      unfolding submit_program
      submit-Safe req c = decoded-Safe req (base64.decode req.signed) (carries base64 req c)

      submits-Safe :
          (reqs : List SubmitRequest)
          → All (Carries base64 key signed) reqs
          → AllSafe I
              (λ req. Promised key signature req.idempotency_key)
              reqs
              (map (submit_program host base64 chain) reqs)
      submits-Safe [] h = tt
      submits-Safe (req ∷ reqs) (c, h) = (submit-Safe req c, submits-Safe reqs h)

      race_Promised :
          (reqs : List SubmitRequest) (schedule : List ℕ) (w : World)
          → All (Carries base64 key signed) reqs
          → Unsigned key w.db
          → AllAnswered
              (λ req. Promised key signature req.idempotency_key)
              reqs
              (interleave schedule (map (submit_program host base64 chain) reqs) w).0
      race_Promised reqs schedule w h new =
          (interleave-AllAnswered I (λ req. Promised key signature req.idempotency_key) schedule
            reqs (map (submit_program host base64 chain) reqs) w (submits-Safe reqs h)
            (λ row found. inl (new row found))).0

      -- Submissions that race. However the awaits of any number of submissions are interleaved, each
      -- one of the key that has ended with an answer gave the same signature, with the status
      -- `submitted`. The submissions of the key carry the same bytes, the network answers these bytes
      -- with one signature only, the key has no recorded signature at first, and the adapter leaves
      -- the tables; submissions of other keys and database faults are free.
      race_agrees :
          (reqs : List SubmitRequest) (schedule : List ℕ) (w : World) (i : ℕ) (req : SubmitRequest)
          (r : SubmitResponse)
          → All (Carries base64 key signed) reqs
          → Unsigned key w.db
          → get_elem? reqs i ≡ some req
          → req.idempotency_key ≡ key
          → outcome_at i (interleave schedule (map (submit_program host base64 chain) reqs) w).0
            ≡ some (ok r)
          → r ≡ response_of signature
      race_agrees reqs schedule w i req r h new here same e =
          answered_at (λ req. Promised key signature req.idempotency_key) i reqs
            (interleave schedule (map (submit_program host base64 chain) reqs) w).0 req r
            (race_Promised reqs schedule w h new) here e same
