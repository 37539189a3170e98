-- ===== src/Handlers/Tx/Awaits/Twice.antt =====
-- Two submissions of a new key that both look it up before either claims it: both broadcast.
use mathlib.Core.Path.{subst}
use xend.Common.{
  ℕ, zero, suc, ◌+◌, ◌≤◌, ◌<◌, ◌≡◌, refl, sym, ap, ◌∙◌, inl, false, ◌==◌, any, List, [], ◌∷◌, none,
  arith,
}
use xend.Common.Text.{Text}
use xend.Common.Bytes.{Bytes}
use xend.Crates.{Base64}
use xend.Runtime.{World, Host}
use xend.Runtime.Success.{run_sql_of_ok}
use xend.Runtime.Sends.{sends}
use xend.Runtime.Program.{Program, advance, interleave, turn}
use xend.Runtime.Program.Delivers.{
  AllDeliver, AllEnded, interleave-AllDeliver, each-AllEnded, length-interleave,
}
use xend.Runtime.Program.Turns.{turns_of, AllEndWithin, interleave_ends}
use xend.Store.Transactions.{select_by_key, find_by_idempotency, find_statement}
use xend.Chain.Adapter.{ChainAdapter}
use xend.Chain.Adapter.Laws.{LeavesTables, SendsOnBroadcast}
use xend.Handlers.Tx.{SubmitRequest, SubmitResponse}
use xend.Handlers.Tx.Retries.{FaultFree}
use xend.Handlers.Tx.Awaits.Ends.{after_lookup-EndsWithin}
use xend.Handlers.Tx.Awaits.{after_lookup_program, decoded_program, submit_program}
use xend.Handlers.Tx.Awaits.Sending.{Takes, IsAnonymous, J, looked_up-Delivers}

-- The lookup of a key that has no row.
first_turn :
    (host : Host) (base64 : Base64) (chain : ChainAdapter) (key : Text) (signed : Bytes)
    (req : SubmitRequest) (w : World)
    → FaultFree host 0
    → select_by_key key w.db.transactions ≡ none
    → IsAnonymous base64 key signed req
    → advance (submit_program host base64 chain req) w
      ≡ (after_lookup_program host base64 chain req signed none, record w { step = suc w.step })
unfolding submit_program decoded_program advance find_by_idempotency find_statement
first_turn host base64 chain key signed req w quiet new is =
    let no_fault = quiet w.step (omega arith) in
    let found =
      run_sql_of_ok host (find_statement req.idempotency_key) w {a = none} {db = w.db} no_fault
        (rw (is.same_key, new) refl) in
    rw (is.carries, found) refl

enough_turns :
    (schedule : List ℕ)
    → 6 ≤ turns_of 0 schedule
    → 6 ≤ turns_of 1 schedule
    → (i : ℕ) → i < 2
    → 6 ≤ turns_of i schedule
enough_turns schedule one two zero lt = one
enough_turns schedule one two (suc zero) lt = two
enough_turns schedule one two (suc (suc i)) lt = absurd (omega arith)

-- A schedule in which each of two programs first has one turn.
two_turns :
    {A : Type 0} (schedule : List ℕ) (p p' q q' : Program A) (w w₁ w₂ : World)
    → advance p w ≡ (p', w₁)
    → advance q w₁ ≡ (q', w₂)
    → interleave (0 ∷ 1 ∷ schedule) (p ∷ q ∷ []) w ≡ interleave schedule (p' ∷ q' ∷ []) w₂
unfolding interleave turn
two_turns schedule p p' q q' w w₁ w₂ one two =
    ap (λ r. let (x, v) = r in interleave schedule (x ∷ (advance q v).0 ∷ []) (advance q v).1) one
    ∙ ap (λ r. interleave schedule (p' ∷ r.0 ∷ []) r.1) two

both_ended :
    (host : Host) (base64 : Base64) (chain : ChainAdapter) (one two : Bytes)
    (first second : SubmitRequest) (schedule : List ℕ) (w : World)
    → 6 ≤ turns_of 0 schedule
    → 6 ≤ turns_of 1 schedule
    → let waiting =
        after_lookup_program host base64 chain first one none
        ∷ after_lookup_program host base64 chain second two none
        ∷ [] in
      AllEnded (interleave schedule waiting w).0
both_ended host base64 chain one two first second schedule w turns_one turns_two =
    let waiting : List (Program SubmitResponse) =
      after_lookup_program host base64 chain first one none
      ∷ after_lookup_program host base64 chain second two none
      ∷ [] in
    let within : AllEndWithin 6 waiting = (
      after_lookup-EndsWithin host base64 chain first one none,
      (after_lookup-EndsWithin host base64 chain second two none, tt),
    ) in
    each-AllEnded _ λ i lt.
      let small : i < 2 = omega (arith, lt, length-interleave schedule waiting w) in
      interleave_ends 6 i schedule waiting w within small
        (enough_turns schedule turns_one turns_two i small)

-- Two submissions of a key that has no row yet, which both look it up before either goes on: each
-- broadcasts. However the rest of their awaits is interleaved, they have sent two transactions as
-- soon as each had its six other turns, also where they carry different bytes. The database has no
-- fault, the adapter accepts the bytes of both and the network takes them, the requests name no
-- sender, the uuids are new to the table, and the adapter leaves the tables and sends on a broadcast.
pub both_broadcast :
    (host : Host) (base64 : Base64) (chain : ChainAdapter) (key : Text) (one two : Bytes)
    (first second : SubmitRequest) (schedule : List ℕ) (w : World)
    → LeavesTables chain
    → SendsOnBroadcast chain
    → FaultFree host 0
    → ((n : ℕ) → any (λ row. row.id == host.uuid n) w.db.transactions ≡ false)
    → select_by_key key w.db.transactions ≡ none
    → IsAnonymous base64 key one first
    → IsAnonymous base64 key two second
    → Takes chain one
    → Takes chain two
    → 6 ≤ turns_of 0 schedule
    → 6 ≤ turns_of 1 schedule
    → let programs =
        submit_program host base64 chain first ∷ submit_program host base64 chain second ∷ [] in
      sends (interleave (0 ∷ 1 ∷ schedule) programs w).1.sent ≡ 2 + sends w.sent
both_broadcast host base64 chain key one two first second schedule w law sending quiet fresh new
      is_one is_two takes_one takes_two turns_one turns_two =
    let rows = w.db.transactions in
    let w₁ : World = record w { step = suc w.step } in
    let w₂ : World = record w₁ { step = suc w₁.step } in
    let waiting : List (Program SubmitResponse) =
      after_lookup_program host base64 chain first one none
      ∷ after_lookup_program host base64 chain second two none
      ∷ [] in
    let delivers = looked_up-Delivers key rows host base64 chain law sending quiet fresh in
    let all : AllDeliver (J key rows) waiting 2 = (
      1,
      1,
      omega arith,
      delivers first one is_one takes_one,
      (1, 0, omega arith, delivers second two is_two takes_two, refl),
    ) in
    let ended = both_ended host base64 chain one two first second schedule w₂ turns_one turns_two in
    let turns =
      two_turns schedule _ _ _ _ w w₁ w₂
        (first_turn host base64 chain key one first w quiet new is_one)
        (first_turn host base64 chain key two second w₁ quiet new is_two) in
    subst (λ r. sends r.1.sent ≡ 2 + sends w.sent) (sym turns)
      (interleave-AllDeliver (J key rows) schedule 2 waiting w₂ all (inl refl) ended)
