-- ===== src/Handlers/Tx/Awaits/Completes.antt =====
-- Submissions of one key that race, where nothing fails: each is answered.
use mathlib.Core.Path.{subst}
use xend.Common.{
  ℕ, suc, ◌≡◌, ◌≤◌, ◌<◌, refl, sym, ap, ◌∙◌, inl, false, true, ◌==◌, any, List, [], ◌∷◌, All, map,
  length, length-map, Option, none, some, ok, arith,
}
use xend.Common.Text.{Text, text}
use xend.Common.Bytes.{Bytes}
use xend.Crates.{Base64}
use xend.Runtime.{World, Host, new_uuid}
use xend.Runtime.Moves.{Moves-run}
use xend.Runtime.Success.{run_sql_of_ok}
use xend.Runtime.Program.{interleave}
use xend.Runtime.Program.Turns.{turns_of, outcome_at}
use xend.Runtime.Program.Succeeds.{Succeeds, interleave_completes}
use xend.Store.{Transaction, Wallet}
use xend.Store.Wallets.{find_id_by_pubkey, find_id_statement, select_by_pubkey, wallet_id}
use xend.Store.Transactions.{
  Existing, existing, select_by_key, find_by_idempotency, find_statement, update_statement,
  mark_submitted, taken, refers,
}
use xend.Chain.Adapter.{ChainAdapter}
use xend.Chain.Adapter.Laws.{LeavesTables}
use xend.Handlers.Tx.{SubmitRequest, SubmitResponse}
use xend.Handlers.Tx.Retries.{Unsigned, FaultFree}
use xend.Handlers.Tx.Awaits.{
  relay_program, resume_program, claim_program, sender_program, after_lookup_program,
  decoded_program, submit_program,
}
use xend.Handlers.Tx.Awaits.Race.{response_of}
use xend.Handlers.Tx.Awaits.Keeps.{row_answers}
use xend.Handlers.Tx.Awaits.Ready.{IsReady, has_id, insert-IsReady, update-IsReady}
use xend.Handlers.Tx.Awaits.Ends.{submits-EndWithin}

-- The adapter accepts the bytes, and the network answers them with the signature.
pub record Accepts (chain : ChainAdapter) (signed : Bytes) (signature : Text) : Type 0 where
  pub validates : (w : World) → (w' : World) × (chain.validate_signed signed w ≡ (ok tt, w'))
  pub answers : (w : World) → (w' : World) × (chain.broadcast signed w ≡ (ok signature, w'))

-- The submission is of the key, and carries the bytes.
pub record IsOf (base64 : Base64) (key : Text) (signed : Bytes) (req : SubmitRequest) : Type 0 where
  pub same_key : req.idempotency_key ≡ key
  pub carries : base64.decode req.signed ≡ some signed

module _ (key signature : Text) (rows : List Transaction) (wallets : List Wallet) where
  abbrev R : World → Type 0
  R w = IsReady key signature rows wallets w.db

  abbrev Q : SubmitResponse → Type 0
  Q r = r ≡ response_of signature

  module _ (host : Host) (base64 : Base64) (chain : ChainAdapter) (law : LeavesTables chain)
      (signed : Bytes) (accepts : Accepts chain signed signature) (quiet : FaultFree host 0)
      (fresh : (n : ℕ) → any (λ row. row.id == host.uuid n) rows ≡ false) where
    relay-Succeeds : (k : Text) → k ≡ key → Succeeds R Q (relay_program host base64 chain k signed)
    unfolding relay_program mark_submitted
    relay-Succeeds k same w i =
        let (u, valid) = accepts.validates w in
        let i₁ : R u =
          subst (IsReady key signature rows wallets)
            (sym (Moves-run (law.validate_signed signed) valid)) i in
        (
          tt,
          u,
          valid,
          i₁,
          λ v j.
              let (x, sent) = accepts.answers v in
              let j₁ : R x =
                subst (IsReady key signature rows wallets)
                  (sym (Moves-run (law.broadcast signed) sent)) j in
              (
                signature,
                x,
                sent,
                j₁,
                λ y l.
                    let (db', run, l₁) =
                      update-IsReady key signature rows wallets (host.now y.step) y.db l in
                    (
                      tt,
                      record y { db = db'; step = suc y.step },
                      run_sql_of_ok host _ y (quiet y.step (omega arith)) (
                          subst
                            (λ j.
                              update_statement j signature (host.now y.step) y.db ≡ ok (tt, db'))
                            (sym same) run),
                      l₁,
                      refl,
                    ),
              ),
        )

    resume-Succeeds :
        (k : Text) (status : Text) (o : Option Text)
        → k ≡ key
        → ((t : Text) → o ≡ some t → (t ≡ signature) × (status ≡ text "submitted"))
        → Succeeds R Q (resume_program host base64 chain k signed status o)
    unfolding resume_program
    resume-Succeeds k status none same known = relay-Succeeds k same
    resume-Succeeds k status (some t) same known = let (p, q) = known t refl in ground arith

    claim-Succeeds :
        (req : SubmitRequest) (owner : Option ℕ)
        → req.idempotency_key ≡ key
        → refers owner wallets ≡ true
        → Succeeds R Q (claim_program host base64 chain req signed owner)
    unfolding claim_program new_uuid
    claim-Succeeds req owner same owned w i = (
      host.uuid w.step,
      record w { step = suc w.step },
      refl,
      i,
      λ v j.
          let (db', run, l) =
            insert-IsReady key signature rows wallets (host.uuid w.step) (host.now v.step) _ v.db
              (fresh w.step) owned same j in
          (
            tt,
            record v { db = db'; step = suc v.step },
            run_sql_of_ok host _ v (quiet v.step (omega arith)) run,
            l,
            relay-Succeeds req.idempotency_key same,
          ),
    )

    sender-Succeeds :
        (req : SubmitRequest) (o : Option Text)
        → req.idempotency_key ≡ key
        → Succeeds R Q (sender_program host base64 chain req signed o)
    unfolding sender_program find_id_by_pubkey find_id_statement
    sender-Succeeds req none same = claim-Succeeds req none same (unfold refers in refl)
    sender-Succeeds req (some pubkey) same = λ w i. (
      wallet_id (select_by_pubkey pubkey w.db.wallets),
      record w { step = suc w.step },
      run_sql_of_ok host (find_id_statement pubkey) w (quiet w.step (omega arith)) refl,
      i,
      claim-Succeeds req _ same (
          subst (λ ws. refers (wallet_id (select_by_pubkey pubkey w.db.wallets)) ws ≡ true)
            i.same_wallets (has_id pubkey w.db.wallets)),
    )

    after_lookup-Succeeds :
        (req : SubmitRequest) (o : Option Existing)
        → req.idempotency_key ≡ key
        → ((e : Existing) (t : Text)
            → o ≡ some e
            → e.signature ≡ some t
            → (t ≡ signature) × (e.status ≡ text "submitted"))
        → Succeeds R Q (after_lookup_program host base64 chain req signed o)
    unfolding after_lookup_program
    after_lookup-Succeeds req none same known = sender-Succeeds req req.pubkey same
    after_lookup-Succeeds req (some e) same known =
        resume-Succeeds req.idempotency_key e.status e.signature same (λ t p. known e t refl p)

    decoded-Succeeds :
        (req : SubmitRequest) (o : Option Bytes)
        → req.idempotency_key ≡ key
        → o ≡ some signed
        → Succeeds R Q (decoded_program host base64 chain req o)
    unfolding decoded_program find_by_idempotency find_statement
    decoded-Succeeds req none same e = absurd (ground arith)
    decoded-Succeeds req (some b) same e = λ w i. (
      existing (select_by_key req.idempotency_key w.db.transactions),
      record w { step = suc w.step },
      run_sql_of_ok host (find_statement req.idempotency_key) w (quiet w.step (omega arith)) refl,
      i,
      subst
          (λ (b : Bytes). Succeeds R Q (
            after_lookup_program host base64 chain req b
              (existing (select_by_key req.idempotency_key w.db.transactions))))
          (ground arith)
          (after_lookup-Succeeds req _ same (λ x t p q.
            row_answers _ x t
              (λ row found.
                i.recorded row (ap (λ j. select_by_key j w.db.transactions) (sym same) ∙ found))
              (sym p) q)),
    )

    pub submit-Succeeds :
        (req : SubmitRequest)
        → IsOf base64 key signed req
        → Succeeds R Q (submit_program host base64 chain req)
    unfolding submit_program
    submit-Succeeds req is = decoded-Succeeds req (base64.decode req.signed) is.same_key is.carries

    submits-Succeed :
        (reqs : List SubmitRequest)
        → All (IsOf base64 key signed) reqs
        → All (Succeeds R Q) (map (submit_program host base64 chain) reqs)
    submits-Succeed [] h = tt
    submits-Succeed (req ∷ reqs) (c, h) = (submit-Succeeds req c, submits-Succeed reqs h)

-- Submissions of one key that race, where nothing fails, are all answered: however their awaits are
-- interleaved, each one that had seven turns has ended with the network's signature and the status
-- `submitted`. The database has no fault, the adapter accepts the bytes that they all carry, the key
-- has no recorded signature at first, no other key has the network's, the uuids are new to the table,
-- and the adapter leaves the tables.
race_completes :
    (host : Host) (base64 : Base64) (chain : ChainAdapter) (key : Text) (signed : Bytes)
    (signature : Text) (reqs : List SubmitRequest) (i : ℕ) (schedule : List ℕ) (w : World)
    → LeavesTables chain
    → Accepts chain signed signature
    → FaultFree host 0
    → ((n : ℕ) → any (λ row. row.id == host.uuid n) w.db.transactions ≡ false)
    → Unsigned key w.db
    → taken key signature w.db.transactions ≡ false
    → All (IsOf base64 key signed) reqs
    → i < length reqs
    → 7 ≤ turns_of i schedule
    → outcome_at i (interleave schedule (map (submit_program host base64 chain) reqs) w).0
      ≡ some (ok (response_of signature))
race_completes host base64 chain key signed signature reqs i schedule w law accepts quiet fresh new
      free h lt le =
    let programs = map (submit_program host base64 chain) reqs in
    let ready : IsReady key signature w.db.transactions w.db.wallets w.db = record {
      same_wallets = refl;
      free = free;
      claimed = inl refl;
      recorded = λ row found. inl (new row found);
    } in
    let (r, answered, same) =
      interleave_completes
        (λ (v : World). IsReady key signature w.db.transactions w.db.wallets v.db)
        (λ r. r ≡ response_of signature) 7 i schedule programs w
        (submits-Succeed key signature w.db.transactions w.db.wallets host base64 chain law signed
          accepts quiet fresh reqs h)
        ready (submits-EndWithin host base64 chain reqs)
        (subst (λ n. i < n) (sym (length-map (submit_program host base64 chain) reqs)) lt) le in
    answered ∙ ap (λ a. some (ok a)) same
