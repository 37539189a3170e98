-- ===== src/Tests/Server.antt =====
-- A server that answers two submissions of one key and a request of another kind at the same time.
use xend.Common.{
  none, All, ◌+◌, ◌*◌, ◌≡◌, ◌≤◌, get_elem?, refl, List, [], ◌∷◌, some, Result, ok, map, arith,
}
use xend.Common.Text.{text, text_eq}
use xend.Error.{AppError}
use xend.Runtime.{◌>>=◌, pure, lift, run_sql, new_uuid}
use xend.Runtime.Program.{advance, turn, map_program}
use xend.Runtime.Program.Turns.{outcome_at}
use xend.Gateway.RateLimit.{record_request, lookup, admit, insert, new, nanos}
use xend.Gateway.RateLimit.Admission.{Rising}
use xend.Gateway.RateLimit.Budget.{times}
use xend.Gateway.Auth.{is_authorized}
use xend.Store.Ledger.{IsLedger, empty_db-IsLedger}
use xend.Store.Transactions.{
  select_by_key, find_by_idempotency, find_statement, insert_statement, pending_row, mark_submitted,
  update_statement, update_rows, submitted_row, refers, taken,
}
use xend.Chain.Solana.Methods.{validate_signed, verified, broadcast, status}
use xend.Chain.Solana.Methods.Witness.{solana-LeavesTables, solana-SendsOnBroadcast}
use xend.Chain.Solana.Rpc.{post, signature_of}
use xend.Handlers.Tx.Awaits.{
  submit_program, decoded_program, after_lookup_program, sender_program, claim_program,
  relay_program, resume_program,
}
use xend.Handlers.Tx.Awaits.Race.{response_of}
use xend.Handlers.Requests.{asks_status, submitted}
use xend.Handlers.Requests.Awaits.{respond_program, status_program}
use xend.App.{State, Arrival, Answer, responds, versioned, started_with}
use xend.App.Budget.{metered}
use xend.App.Server.{
  Event, arrives, continues, System, started, serve_events, happen, routes_program, limited_program,
  authorized_program, handler_program, arrivals_in,
}
use xend.App.Server.Ends.{arrives-ends}
use xend.App.Server.Ledger.{serve_events-IsLedger}
use xend.App.Server.Race.{server_agrees}
use xend.App.Server.Budget.{sent_in_turns, sent_in_turns-le}
use xend.App.Server.Phases.{server_phases}
use xend.App.Server.Replays.{others}
use xend.App.Server.Answers.{answers_to}
use xend.App.Server.Replays.Events.{server_replays}
use xend.Runtime.Sends.{sends}
use xend.Store.{Transaction}
use xend.Store.Phases.{phase_of, claimed, ◌⟶?◌}
use xend.Startup.{from_env}
use xend.Tests.{host, sdk, json, network, base64, adapter, chain, start, request}
use xend.Tests.App.{codecs, headers, arrival, state, env}
use xend.Tests.Race.{chain-AnswersOnly, request-Carries, none_yet}

-- The same client asks for a status.
abbrev pub status_arrival : Arrival
status_arrival = record {
  route = versioned (asks_status (text "sig"));
  headers = headers;
  now = 6;
  fresh = text "v";
}

-- The third request arrives between the awaits of the first two, whose turns alternate.
abbrev traffic : List Event
traffic =
    arrives arrival
    ∷ arrives arrival
    ∷ continues 0
    ∷ continues 1
    ∷ continues 0
    ∷ arrives status_arrival
    ∷ map continues (1 ∷ 2 ∷ 0 ∷ 1 ∷ 0 ∷ 1 ∷ 0 ∷ 1 ∷ 0 ∷ 1 ∷ 0 ∷ 1 ∷ [])

-- A submission that waits after its claim.
abbrev few : List Event
few = arrives arrival ∷ continues 0 ∷ continues 0 ∷ continues 0 ∷ []

abbrev served : System
served = serve_events host codecs chain [] traffic (started state)

second_here : get_elem? served.arrivals 1 ≡ some arrival
unfolding serve_events happen
second_here = refl

second_answered :
    outcome_at 1 served.programs ≡ some (ok (responds (submitted (response_of (text "sig")))))
unfolding serve_events happen routes_program limited_program authorized_program handler_program
    respond_program status_program map_program record_request lookup admit insert new is_authorized
    turn advance submit_program decoded_program after_lookup_program sender_program claim_program
    relay_program resume_program ◌>>=◌ pure lift run_sql new_uuid text text_eq select_by_key
    find_by_idempotency find_statement insert_statement pending_row mark_submitted update_statement
    update_rows submitted_row refers taken validate_signed verified broadcast post signature_of
    status
second_answered = refl

arrives-ends_example :
    (r : Result Answer AppError) × (outcome_at 0
        (serve_events host codecs chain [] traffic (started state)).programs
      ≡ some r)
arrives-ends_example =
    arrives-ends host codecs chain [] (started state) arrival
      (arrives arrival
        ∷ continues 0
        ∷ continues 1
        ∷ continues 0
        ∷ arrives status_arrival
        ∷ map continues (1 ∷ 2 ∷ 0 ∷ 1 ∷ 0 ∷ 1 ∷ 0 ∷ 1 ∷ 0 ∷ 1 ∷ 0 ∷ 1 ∷ []))
      (omega arith)

serve_events-IsLedger_example : IsLedger served.world.db
serve_events-IsLedger_example =
    serve_events-IsLedger host codecs chain
      (solana-LeavesTables host sdk json network base64 adapter) [] traffic state empty_db-IsLedger

server_agrees_example :
    responds (submitted (response_of (text "sig")))
    ≡ responds (submitted (response_of (text "sig")))
server_agrees_example =
    server_agrees (text "k1") (text "sig") host codecs chain
      (solana-LeavesTables host sdk json network base64 adapter) (text "tx") chain-AnswersOnly []
      traffic state 1 arrival request (responds (submitted (response_of (text "sig"))))
      (request-Carries, (request-Carries, (tt, tt))) none_yet second_here refl refl second_answered

rising : Rising 0 (times (metered (arrivals_in traffic)))
rising = (omega arith, (omega arith, (omega arith, tt)))

sent_in_turns-le_example :
    sent_in_turns host codecs chain []
      (text "anonymous")
      0
      traffic
      (started (started_with (from_env env) start))
    ≤ 240
sent_in_turns-le_example =
    sent_in_turns-le host codecs chain
      (solana-SendsOnBroadcast host sdk json network base64 adapter) [] (text "anonymous") 0 env
      start traffic rising

claimed_now :
    phase_of (text "k1") (serve_events host codecs chain [] few (started state)).world.db ≡ claimed
unfolding serve_events happen routes_program limited_program authorized_program handler_program
    respond_program map_program record_request lookup admit insert new is_authorized turn advance
    submit_program decoded_program after_lookup_program sender_program claim_program run_sql
    new_uuid text text_eq select_by_key find_by_idempotency find_statement insert_statement
    pending_row refers taken
claimed_now = refl

server_phases_example :
    phase_of (text "k1") (serve_events host codecs chain [] few (started state)).world.db
    ⟶? phase_of
        (text "k1")
        (happen host codecs chain []
          (continues 0)
          (serve_events host codecs chain [] few (started state))).world.db
server_phases_example =
    server_phases host codecs chain [] few (continues 0) state (text "k1")
      (solana-LeavesTables host sdk json network base64 adapter)

-- The key's row after a process that has ended: its status is another one.
abbrev old_row : Transaction
old_row = record {
  id = 4;
  wallet_id = none;
  idempotency_key = text "k1";
  signature = some (text "old");
  status = text "confirmed";
  to_address = none;
  amount = none;
  mint = none;
  created_at = 1;
  updated_at = 2;
}

abbrev restarted : State
restarted = (
  new 120 (60 * nanos),
  record start { db = record { wallets = []; transactions = old_row ∷ [] } },
)

abbrev replayed : System
replayed = serve_events host codecs chain [] traffic (started restarted)

abbrev old_answer : Answer
old_answer = responds (submitted (record { signature = text "old"; status = text "confirmed" }))

old_row_stored : select_by_key (text "k1") restarted.1.db.transactions ≡ some old_row
unfolding select_by_key text text_eq
old_row_stored = refl

-- Both submissions of the key have been answered.
both_replayed :
    answers_to (text "k1") replayed.arrivals replayed.programs ≡ old_answer ∷ old_answer ∷ []
unfolding serve_events happen routes_program limited_program authorized_program handler_program
    respond_program status_program map_program record_request lookup admit insert new is_authorized
    turn advance submit_program decoded_program after_lookup_program resume_program run_sql text
    text_eq select_by_key find_by_idempotency find_statement status ◌>>=◌ pure lift post
    signature_of
both_replayed = refl

server_replays_example :
    All (λ answer. answer ≡ old_answer) (answers_to (text "k1") replayed.arrivals replayed.programs)
    × (select_by_key (text "k1") replayed.world.db.transactions ≡ some old_row)
    × (sends replayed.world.sent
        ≤ others (text "k1") (arrivals_in traffic) + sends restarted.1.sent)
server_replays_example =
    server_replays (text "k1") (text "old") old_row refl host codecs chain
      (solana-LeavesTables host sdk json network base64 adapter)
      (solana-SendsOnBroadcast host sdk json network base64 adapter) [] traffic restarted
      old_row_stored
