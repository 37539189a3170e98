-- ===== src/Tests/Twice.antt =====
-- Two submissions of one key with different bytes, which both look the key up first.
use xend.Common.{◌≡◌, refl, List, [], ◌∷◌, arith, ◌+◌, ℕ, none}
use xend.Common.Text.{text, text_eq}
use xend.Runtime.{◌>>=◌, pure, lift}
use xend.Runtime.Sends.{sends}
use xend.Runtime.Program.{interleave}
use xend.Store.Transactions.{select_by_key}
use xend.Chain.Solana.Methods.{validate_signed, verified, broadcast}
use xend.Chain.Solana.Rpc.{post, signature_of}
use xend.Chain.Solana.Methods.Witness.{solana-LeavesTables, solana-SendsOnBroadcast}
use xend.Handlers.Tx.{SubmitRequest}
use xend.Handlers.Tx.Awaits.{submit_program}
use xend.Handlers.Tx.Awaits.Sending.{Takes, IsAnonymous}
use xend.Handlers.Tx.Awaits.Twice.{both_broadcast}
use xend.Tests.{host, sdk, json, network, base64, adapter, chain, start, request}

-- The key of the other request, with other bytes.
abbrev other : SubmitRequest
other = record request { signed = text "tx2" }

abbrev in_turns : List ℕ
in_turns = 0 ∷ 1 ∷ 0 ∷ 1 ∷ 0 ∷ 1 ∷ 0 ∷ 1 ∷ 0 ∷ 1 ∷ 0 ∷ 1 ∷ []

no_row : select_by_key (text "k1") start.db.transactions ≡ none
unfolding select_by_key
no_row = refl

chain-Takes : Takes chain (text "tx")
unfolding validate_signed verified broadcast post signature_of lift pure ◌>>=◌ text text_eq
chain-Takes = record { validates = λ w. (w, refl); broadcasts = λ w. (_, _, refl) }

chain-Takes_other : Takes chain (text "tx2")
unfolding validate_signed verified broadcast post signature_of lift pure ◌>>=◌ text text_eq
chain-Takes_other = record { validates = λ w. (w, refl); broadcasts = λ w. (_, _, refl) }

request-IsAnonymous : IsAnonymous base64 (text "k1") (text "tx") request
unfolding text
request-IsAnonymous = record { same_key = refl; carries = refl; no_sender = refl }

other-IsAnonymous : IsAnonymous base64 (text "k1") (text "tx2") other
unfolding text
other-IsAnonymous = record { same_key = refl; carries = refl; no_sender = refl }

both_broadcast_example :
    sends
      (interleave
        (0 ∷ 1 ∷ in_turns)
        (submit_program host base64 chain request ∷ submit_program host base64 chain other ∷ [])
        start).1.sent
    ≡ 2 + sends start.sent
both_broadcast_example =
    both_broadcast host base64 chain (text "k1") (text "tx") (text "tx2") request other in_turns
      start (solana-LeavesTables host sdk json network base64 adapter)
      (solana-SendsOnBroadcast host sdk json network base64 adapter) (λ i le. refl) (λ n. refl)
      no_row request-IsAnonymous other-IsAnonymous chain-Takes chain-Takes_other (omega arith)
      (omega arith)
