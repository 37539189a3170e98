-- ===== src/Tests/Race.antt =====
-- Two submissions of one key whose awaits alternate.
use xend.Common.{inr, ℕ, ◌≡◌, refl, List, [], ◌∷◌, some, ok, false, map, arith}
use xend.Common.Text.{text, text_eq}
use xend.Runtime.{◌>>=◌, pure, lift, run_sql, new_uuid}
use xend.Runtime.Program.{advance, turn, interleave}
use xend.Runtime.Program.Turns.{outcome_at}
use xend.Store.Transactions.{
  select_by_key, find_by_idempotency, find_statement, insert_statement, pending_row, mark_submitted,
  update_statement, update_rows, submitted_row, refers, taken,
}
use xend.Chain.Solana.Methods.{validate_signed, verified, broadcast}
use xend.Chain.Solana.Rpc.{post, signature_of}
use xend.Handlers.Tx.{SubmitRequest}
use xend.Handlers.Tx.Retries.{Unsigned}
use xend.Handlers.Tx.Awaits.{
  submit_program, decoded_program, after_lookup_program, sender_program, claim_program,
  relay_program, resume_program,
}
use xend.Handlers.Tx.Awaits.Race.{AnswersOnly, Carries, response_of}
use xend.Handlers.Tx.Awaits.Completes.{Accepts, IsOf}
use xend.Tests.{host, base64, chain, start, request}

abbrev two : List SubmitRequest
two = request ∷ request ∷ []

abbrev alternating : List ℕ
alternating = 0 ∷ 1 ∷ 0 ∷ 1 ∷ 0 ∷ 1 ∷ 0 ∷ 1 ∷ 0 ∷ 1 ∷ 0 ∷ 1 ∷ 0 ∷ 1 ∷ []

-- Both broadcast; the second claim met the row of the first.
second_answered :
    outcome_at 1 (interleave alternating (map (submit_program host base64 chain) two) start).0
    ≡ some (ok (response_of (text "sig")))
unfolding interleave turn advance submit_program decoded_program after_lookup_program sender_program
    claim_program relay_program resume_program ◌>>=◌ pure lift run_sql new_uuid text text_eq
    select_by_key find_by_idempotency find_statement insert_statement pending_row mark_submitted
    update_statement update_rows submitted_row refers taken validate_signed verified broadcast post
    signature_of
second_answered = refl

pub chain-AnswersOnly : AnswersOnly chain (text "tx") (text "sig")
unfolding broadcast post signature_of lift pure ◌>>=◌ text text_eq
chain-AnswersOnly w t e = ground arith

pub request-Carries : Carries base64 (text "k1") (text "tx") request
unfolding text
request-Carries = inr refl

pub none_yet : Unsigned (text "k1") start.db
unfolding select_by_key
none_yet row e = absurd (ground arith)

pub chain-Accepts : Accepts chain (text "tx") (text "sig")
unfolding validate_signed verified broadcast post signature_of lift pure ◌>>=◌ text text_eq
chain-Accepts = record { validates = λ w. (w, refl); answers = λ w. (_, refl) }

pub request-IsOf : IsOf base64 (text "k1") (text "tx") request
unfolding text
request-IsOf = record { same_key = refl; carries = refl }

pub not_taken : taken (text "k1") (text "sig") start.db.transactions ≡ false
unfolding taken
not_taken = refl
