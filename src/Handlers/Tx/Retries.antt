-- ===== src/Handlers/Tx/Retries.antt =====
-- A client that retries: a submission that succeeded, followed by any number of calls of `submit`
-- with the same idempotency key.
use mathlib.Core.Path.{subst}
use xend.Common.{
  ℕ, suc, ◌≤◌, ◌≡◌, refl, sym, ◌∙◌, ap, List, [], ◌∷◌, Option, none, some, Result, ok, arith,
  replicate, length, All,
}
use xend.Common.Text.{Text}
use xend.Common.Bytes.{Bytes}
use xend.Error.{AppError}
use xend.Runtime.{World, Host, advance}
use xend.Runtime.Success.{on_success, pure-eq-ok, lift-eq-ok}
use xend.Runtime.Moves.{Moves-run}
use xend.Runtime.Sends.{sends, SameSends-run_sql}
use xend.Store.{Db, Transaction}
use xend.Store.Transactions.{existing, find_by_idempotency, mark_submitted, select_by_key}
use xend.Chain.Adapter.{ChainAdapter}
use xend.Chain.Adapter.Laws.{LeavesTables, SendsOnBroadcast}
use xend.Crates.{Base64}
use xend.Handlers.Tx.{SubmitRequest, SubmitResponse, relay, resume, after_lookup, submit}
use xend.Handlers.Tx.Stored.{Stored, submit-Stored, submit_of_Stored, find-eq-ok}
use xend.Handlers.Tx.Once.{claim-SameSends}

-- The key has no recorded signature: it is unknown, or claimed and not yet broadcast.
abbrev pub Unsigned : Text → Db → Type 0
Unsigned key db =
    (row : Transaction) → select_by_key key db.transactions ≡ some row → row.signature ≡ none

-- Requests handled one after the other; each client sees its own result.
unfoldable pub submit_all :
    Host
    → Base64
    → ChainAdapter
    → List SubmitRequest
    → World
    → List (Result SubmitResponse AppError) × World
submit_all host base64 chain [] w = ([], w)
submit_all host base64 chain (req ∷ reqs) w =
    let (r, w') = submit host base64 chain req w in
    let (rs, last) = submit_all host base64 chain reqs w' in (r ∷ rs, last)

-- A request for the key whose payload is base64.
pub record Retries (base64 : Base64) (key : Text) (req : SubmitRequest) : Type 0 where
  pub same_key : req.idempotency_key ≡ key
  pub signed : Bytes
  pub decodes : base64.decode req.signed ≡ some signed

-- No database fault from a step on.
abbrev pub FaultFree : Host → ℕ → Type 0
FaultFree host n = (i : ℕ) → n ≤ i → host.fault i ≡ none

module _ (host : Host) (base64 : Base64) (chain : ChainAdapter) where
  -- Once a response is recorded, every later request for its key is answered by it, nothing is sent
  -- and the tables stay, where the payloads are base64 and the database has no fault from then on.
  submit_all_of_Stored :
      (key : Text) (r : SubmitResponse) (reqs : List SubmitRequest) (w : World)
      → Stored key r w.db
      → All (Retries base64 key) reqs
      → FaultFree host w.step
      → ((submit_all host base64 chain reqs w).0 ≡ replicate (length reqs) (ok r))
        × ((submit_all host base64 chain reqs w).1.db ≡ w.db)
        × ((submit_all host base64 chain reqs w).1.sent ≡ w.sent)
  unfolding submit_all
  submit_all_of_Stored key r [] w s h free = (refl, refl, refl)
  submit_all_of_Stored key r (req ∷ reqs) w s (h, hs) free =
      let answer : submit host base64 chain req w ≡ (ok r, advance w) =
        submit_of_Stored host base64 chain req w r h.signed
          (subst (λ k. Stored k r w.db) (sym h.same_key) s) h.decodes (free w.step (omega arith)) in
      let (results, tables, log) =
        submit_all_of_Stored key r reqs (advance w) s hs (λ i le. free i (omega arith)) in
      rw answer (ap (λ rs. ok r ∷ rs) results, tables, log)

module _ (host : Host) (base64 : Base64) (chain : ChainAdapter) (tables : LeavesTables chain)
    (law : SendsOnBroadcast chain) where
  relay-sends_one :
      (key : Text) (signed : Bytes) (w w' : World) (r : SubmitResponse)
      → relay host base64 chain key signed w ≡ (ok r, w')
      → sends w'.sent ≡ suc (sends w.sent)
  unfolding relay mark_submitted
  relay-sends_one key signed w w' r e = on_success _ _ w r w' e λ _ u validated rest.
      on_success _ _ u r w' rest λ signature v sent rest.
        on_success _ _ v r w' rest λ _ x marked rest.
          ap (λ (z : World). sends z.sent) (sym (pure-eq-ok _ r x w' rest).1)
          ∙ Moves-run (SameSends-run_sql host _) marked
          ∙ law.delivered signed u signature v sent
          ∙ ap suc (Moves-run (law.validate_signed signed) validated)

  after_lookup-sends_one :
      (req : SubmitRequest) (signed : Bytes) (o : Option Transaction) (w w' : World)
      (r : SubmitResponse)
      → select_by_key req.idempotency_key w.db.transactions ≡ o
      → Unsigned req.idempotency_key w.db
      → after_lookup host base64 chain req signed (existing o) w ≡ (ok r, w')
      → sends w'.sent ≡ suc (sends w.sent)
  unfolding after_lookup resume
  after_lookup-sends_one req signed none w w' r found new e =
      on_success _ _ w r w' e λ _ u claimed rest.
        relay-sends_one req.idempotency_key signed u w' r rest
        ∙ ap suc (Moves-run (claim-SameSends host base64 chain law req) claimed)
  after_lookup-sends_one req signed (some row) w w' r found new e =
      relay-sends_one req.idempotency_key signed w w' r (rw (new row found) at e)

  -- A submission that succeeds under a key with no recorded signature has sent exactly one
  -- transaction, where the adapter leaves the tables and sends only in `broadcast`.
  submit-sends_one :
      (req : SubmitRequest) (w w' : World) (r : SubmitResponse)
      → Unsigned req.idempotency_key w.db
      → submit host base64 chain req w ≡ (ok r, w')
      → sends w'.sent ≡ suc (sends w.sent)
  unfolding submit find_by_idempotency
  submit-sends_one req w w' r new e = on_success _ _ w r w' e λ signed u decoded rest.
      on_success _ _ u r w' rest λ found v looked_up rest.
        let (answer, same) = find-eq-ok host req.idempotency_key u v found looked_up in
        let start : w ≡ u = (lift-eq-ok _ signed w u decoded).1 in
        let new' : Unsigned req.idempotency_key v.db =
          subst (Unsigned req.idempotency_key) (ap (λ (z : World). z.db) start ∙ sym same) new in
        after_lookup-sends_one req signed _ v w' r refl new' (rw answer at rest)
        ∙ ap suc (
            Moves-run (SameSends-run_sql host _) looked_up
            ∙ ap (λ (z : World). sends z.sent) (sym start))

  -- Exactly once: after a submission that succeeds under a key with no recorded signature, any
  -- number of retries of the key send nothing more, and each is answered like the first, where the
  -- database has no fault during the retries and their payloads are base64, and the adapter leaves the
  -- tables and sends only in `broadcast`.
  pub submit_exactly_once :
      (req : SubmitRequest) (retries : List SubmitRequest) (w w' : World) (r : SubmitResponse)
      → Unsigned req.idempotency_key w.db
      → submit host base64 chain req w ≡ (ok r, w')
      → All (Retries base64 req.idempotency_key) retries
      → FaultFree host w'.step
      → ((submit_all host base64 chain (req ∷ retries) w).0
          ≡ ok r ∷ replicate (length retries) (ok r))
        × (sends (submit_all host base64 chain (req ∷ retries) w).1.sent ≡ suc (sends w.sent))
  unfolding submit_all
  submit_exactly_once req retries w w' r new e hs free =
      let (results, _, log) =
        submit_all_of_Stored host base64 chain req.idempotency_key r retries w'
          (submit-Stored host base64 chain tables req w w' r e) hs free in
      rw e (ap (λ rs. ok r ∷ rs) results, ap sends log ∙ submit-sends_one req w w' r new e)
