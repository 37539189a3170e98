-- ===== src/App/Server/Replays.antt =====
-- A server whose tables have the signature of a key: what a submission of the key does, and what the
-- others leave.
pub mod Requests
pub mod Events
use mathlib.Core.Path.{subst}
use xend.Common.{
  ℕ, ◌+◌, ◌≤◌, ◌≡◌, ◌≢◌, refl, sym, ap, ◌∙◌, Bool, true, false, Bool-cases, ◌⊎◌, inl, inr, List, [],
  ◌∷◌, All, Option, none, some, ok, arith, get_elem?, if◌then◌else◌,
}
use xend.Common.Text.{Text, text, text_eq, text_eq_iff, text_eq_refl}
use xend.Common.Bytes.{Bytes}
use xend.Runtime.{World, Host, run_sql}
use xend.Runtime.Moves.{Moves, Moves-new_uuid, Moves-run_sql}
use xend.Runtime.Sends.{sends, SameSends, SameSends-run_sql}
use xend.Runtime.Program.Costs.{Costs, AllCost, Costs-Safe, map-Costs, AllCost-AllAnswered}
use xend.Runtime.Program.Awaits.{EachMoves, EachMoves-Safe}
use xend.Runtime.Program.Maps.{map-EachMoves, map-SpendsWithin}
use xend.Runtime.Program.Turns.{outcome_at, answered_at}
use xend.Store.{Db, Transaction}
use xend.Store.Wallets.{find_id_by_pubkey}
use xend.Store.Transactions.{
  Existing, Claim, existing, select_by_key, find_by_idempotency, insert_statement, update_statement,
  mark_submitted, pending_row,
}
use xend.Store.Transactions.Keys.{select-append, select-update_rows}
use xend.Store.Steps.{find_id_keeps, find_keeps}
use xend.Chain.Adapter.{ChainAdapter}
use xend.Chain.Adapter.Laws.{LeavesTables, SendsOnBroadcast}
use xend.Handlers.Tx.{SubmitRequest, SubmitResponse}
use xend.Handlers.Tx.Stored.{find-eq-ok}
use xend.Handlers.Tx.Awaits.{submit_program, decoded_program, after_lookup_program, resume_program}
use xend.Handlers.Tx.Awaits.Rules.{SubmitRules, submit-EachMoves}
use xend.Handlers.Requests.{Request, submits, submitted, Codecs}
use xend.Handlers.Requests.Awaits.{respond_program}
use xend.Handlers.Requests.Awaits.Rows.{
  KeepsRows, rows_ignore_step, same_rows, adapter-rows, row_rules,
}
use xend.Handlers.Requests.Awaits.Rules.{is_submission, submission-cases, other-EachMoves}
use xend.Handlers.Requests.Awaits.Spends.{respond-SpendsWithin}
use xend.App.{Route, liveness, versioned, Answer, responds, Arrival, State}
use xend.App.Server.{Event, System, started, handler_program, serve_events, arrivals_in}
use xend.App.Server.Costs.{allowance, Prices, serve_events-Costs}
use xend.App.Server.Answers.{Promised}
use xend.App.Server.Race.{route_key, route_submits}

-- What a request may send: nothing, but for a submission of another key.
abbrev pub request_price : Text → Request → ℕ
request_price key (submits req) = if text_eq req.idempotency_key key then 0 else 1
request_price key other = 0

abbrev pub route_price : Text → Route → ℕ
route_price key liveness = 0
route_price key (versioned r) = request_price key r

-- The number of submissions of other keys.
abbrev pub others : Text → List Arrival → ℕ
others key arrivals = allowance (λ a. route_price key a.route) arrivals

insert_leaves :
    (key : Text) (row : Transaction) (id : ℕ) (c : Claim) (now : ℕ) (a b : Db)
    → insert_statement id c now a ≡ ok (tt, b)
    → select_by_key key a.transactions ≡ some row
    → select_by_key key b.transactions ≡ some row
unfolding insert_statement
insert_leaves key row id c now a b h e =
    ground (arith, select-append key a.transactions (pending_row id now c))

update_leaves :
    (key : Text) (row : Transaction) (k signature : Text) (now : ℕ) (a b : Db)
    → k ≢ key
    → update_statement k signature now a ≡ ok (tt, b)
    → select_by_key key a.transactions ≡ some row
    → select_by_key key b.transactions ≡ some row
unfolding update_statement
update_leaves key row k signature now a b ne h e = elim (Bool-cases (text_eq k key)) [
  | inl same ↦ absurd (ne (ground (arith, text_eq_iff k key)))
  | inr other ↦ ground (arith, select-update_rows k key signature now a.transactions)
]

-- The row stays.
abbrev pub HasRow : Text → Transaction → List Transaction → Type 0
HasRow key row rows = select_by_key key rows ≡ some row

abbrev pub RowStays : Text → Transaction → World → Type 0
RowStays key row w = HasRow key row w.db.transactions

-- The answer that the row holds.
abbrev pub recalled : Text → Text → SubmitResponse
recalled signature status = record { signature = signature; status = status }

abbrev pub Recalls : Text → Transaction → SubmitResponse → Type 0
Recalls signature row r = r ≡ recalled signature row.status

abbrev pub IsRecalled : Text → Transaction → Answer → Type 0
IsRecalled signature row answer = answer ≡ responds (submitted (recalled signature row.status))

abbrev pub Told : Text → Text → Transaction → Arrival → Answer → Type 0
Told key signature row = Promised key (IsRecalled signature row)

module _ (key signature : Text) (row : Transaction) (host : Host) (codecs : Codecs)
    (chain : ChainAdapter) (law : LeavesTables chain) where
  abbrev Rows : List Transaction → Type 0
  Rows = HasRow key row

  find-KeepsRows : (k : Text) → Moves (KeepsRows Rows) (find_by_idempotency host k)
  unfolding find_by_idempotency
  find-KeepsRows k = Moves-run_sql (rows_ignore_step Rows) host _ (record {
    along = λ now w a db e.
        same_rows Rows w.db db
          (ap (λ (d : Db). d.transactions) (sym (find_keeps k now w.db db a e)));
  })

  pub submit_rules : (k : Text) → k ≢ key → SubmitRules host chain (KeepsRows Rows) k
  unfolding find_id_by_pubkey mark_submitted
  submit_rules k ne = record {
    uuid = Moves-new_uuid (rows_ignore_step Rows) host;
    sender = λ pubkey. Moves-run_sql (rows_ignore_step Rows) host _ (record {
      along = λ now w a db e.
          same_rows Rows w.db db
            (ap (λ (d : Db). d.transactions) (sym (find_id_keeps pubkey now w.db db a e)));
    });
    lookup = find-KeepsRows k;
    claim = λ id c.
        Moves-run_sql (rows_ignore_step Rows) host _
          (record { along = λ now w a db e. insert_leaves key row id c now w.db db e });
    mark = λ s.
        Moves-run_sql (rows_ignore_step Rows) host _
          (record { along = λ now w a db e. update_leaves key row k s now w.db db ne e });
    validate_signed = λ signed. adapter-rows Rows _ (law.validate_signed signed);
    broadcast = λ signed. adapter-rows Rows _ (law.broadcast signed);
  }

  resumed-Costs :
      (k : Text) (signed : Bytes) (o : Option Text)
      → o ≡ some signature
      → Costs
          (RowStays key row)
          (Recalls signature row)
          (resume_program host codecs.base64 chain k signed row.status o)
          0
  unfolding resume_program
  resumed-Costs k signed none e = absurd (ground arith)
  resumed-Costs k signed (some s) e = ground arith

  looked_up-Costs :
      (req : SubmitRequest) (signed : Bytes) (found : Option Existing)
      → row.signature ≡ some signature
      → found ≡ existing (some row)
      → Costs
          (RowStays key row)
          (Recalls signature row)
          (after_lookup_program host codecs.base64 chain req signed found)
          0
  unfolding after_lookup_program
  looked_up-Costs req signed found is_signed e =
      subst
        (λ o.
          Costs (RowStays key row) (Recalls signature row)
            (after_lookup_program host codecs.base64 chain req signed o) 0)
        (sym e) (resumed-Costs req.idempotency_key signed row.signature is_signed)

  find-row :
      (w : World) (found : Option Existing)
      → RowStays key row w
      → (find_by_idempotency host key w).0 ≡ ok found
      → found ≡ existing (some row)
  find-row w found i e =
      let v = (find_by_idempotency host key w).1 in
      let (answer, same) = find-eq-ok host key w v found (λ j. (e j, v)) in
      answer ∙ ap existing (ap (λ (d : Db). select_by_key key d.transactions) same ∙ i)

  pub decoded-Costs :
      (req : SubmitRequest) (o : Option Bytes)
      → row.signature ≡ some signature
      → req.idempotency_key ≡ key
      → Costs
          (RowStays key row)
          (Recalls signature row)
          (decoded_program host codecs.base64 chain req o)
          0
  unfolding decoded_program find_by_idempotency
  decoded-Costs req none is_signed same = tt
  decoded-Costs req (some signed) is_signed same = λ w i. (
    0,
    0,
    omega arith,
    omega (arith, (SameSends-run_sql host _).at w),
    (find-KeepsRows req.idempotency_key).at w i,
    λ found e.
        looked_up-Costs req signed found is_signed
          (find-row w found i (subst (λ k. (find_by_idempotency host k w).0 ≡ ok found) same e)),
  )
