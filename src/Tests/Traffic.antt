-- ===== src/Tests/Traffic.antt =====
-- Three submissions of one key and a status in a server where nothing fails.
use xend.Common.{◌≡◌, refl, true, List, [], ◌∷◌, some, ok, map, arith, length, ◌≤◌}
use xend.Common.Text.{text, text_eq}
use xend.Runtime.Program.{turn}
use xend.App.Server.Ends.{turns_in}
use xend.Runtime.Program.Turns.{outcome_at}
use xend.Gateway.Auth.{is_authorized}
use xend.Gateway.RateLimit.{record_request, lookup, admit, insert, new}
use xend.Gateway.Router.{caller_of}
use xend.Chain.Solana.Methods.Witness.{solana-LeavesTables}
use xend.Handlers.Tx.Awaits.Race.{response_of}
use xend.Handlers.Requests.{submitted}
use xend.App.{responds}
use xend.App.Server.{
  Event, arrives, continues, System, started, serve_events, happen, routes_program,
}
use xend.App.Server.Completes.{server_completes}
use xend.Tests.{host, sdk, json, network, base64, adapter, chain, request}
use xend.Tests.App.{codecs, arrival, state}
use xend.Tests.Race.{chain-Accepts, request-IsOf, none_yet, not_taken}
use xend.Tests.Server.{status_arrival}

-- A submission that has claimed the key, and a status.
abbrev earlier : List Event
earlier = arrives arrival ∷ continues 0 ∷ continues 0 ∷ arrives status_arrival ∷ continues 0 ∷ []

abbrev later : List Event
later =
    continues 2
    ∷ continues 0
    ∷ arrives arrival
    ∷ map continues (2 ∷ 0 ∷ 2 ∷ 3 ∷ 2 ∷ 0 ∷ 2 ∷ 1 ∷ 2 ∷ 0 ∷ 2 ∷ [])

abbrev middle : System
middle = serve_events host codecs chain [] earlier (started state)

let_in : (record_request middle.limiter (caller_of arrival.headers) arrival.now).0 ≡ ok tt
unfolding serve_events happen routes_program record_request lookup admit insert new text text_eq
let_in = refl

open_to_all : is_authorized [] arrival.headers.authorization ≡ true
unfolding is_authorized
open_to_all = refl

two_waiting : length middle.programs ≡ 2
unfolding serve_events happen turn
two_waiting = refl

enough : 7 ≤ turns_in (length middle.programs) later
enough = rw two_waiting (omega arith)

server_completes_example :
    outcome_at
      (length middle.programs)
      (serve_events host codecs chain [] (arrives arrival ∷ later) middle).programs
    ≡ some (ok (responds (submitted (response_of (text "sig")))))
server_completes_example =
    server_completes host codecs chain (text "k1") (text "sig") (text "tx") [] earlier later request
      arrival state (solana-LeavesTables host sdk json network base64 adapter) chain-Accepts
      (λ i le. refl) (λ n. refl) none_yet not_taken (request-IsOf, (tt, tt))
      (request-IsOf, (request-IsOf, tt)) refl let_in open_to_all enough
