-- ===== src/Tests/Units.antt =====
-- Unit tests of the backend on the model: the modules `tests` of backend/src/gateway/auth.rs,
-- gateway/rate_limit.rs and chain/solana.rs. A test is true where all of its assertions hold; keys
-- that a test makes up are arguments.
use xend.Common.{
  ℕ, zero, suc, ◌≡◌, refl, Bool, true, false, not, ◌&&◌, List, [], ◌∷◌, ◌++◌, Option, none, some,
  ◌*◌, ◌==◌, length,
}
use xend.Common.Text.{
  Text, text, text_eq, strip_prefix, trim, contains, to_ascii_lowercase, starts_with,
}
use xend.Common.Bytes.{to_le_bytes}
use xend.Error.{AppError, blockhash_expired, insufficient_funds, chain_rejected}
use xend.Gateway.Auth.{is_authorized}
use xend.Gateway.RateLimit.{new, record_request, admit, lookup, insert, nanos}
use xend.Gateway.RateLimit.Admission.{is_ok}
use xend.Chain.Solana.Sdk.{Sdk, Pubkey, AccountMeta}
use xend.Chain.Solana.Instructions.{
  program, token_program_id, associated_token_program_id, create_ata_idempotent,
  token_transfer_checked,
}
use xend.Chain.Solana.Errors.{map_send_error, classify}
use xend.Tests.{string, object, json, sdk}

abbrev disabled_when_no_keys_configured : Bool
disabled_when_no_keys_configured =
    is_authorized [] none && is_authorized [] (some (text "Bearer anything"))

disabled_passes : disabled_when_no_keys_configured ≡ true
unfolding is_authorized
disabled_passes = refl

abbrev accepts_a_valid_bearer_key_and_rejects_others : Bool
accepts_a_valid_bearer_key_and_rejects_others =
    let configured = text "secret" ∷ [] in
    is_authorized configured (some (text "Bearer secret"))
    && (not (is_authorized configured (some (text "Bearer wrong")))
        && (not (is_authorized configured (some (text "secret")))
            && not (is_authorized configured none)))

accepts_passes : accepts_a_valid_bearer_key_and_rejects_others ≡ true
unfolding is_authorized text text_eq strip_prefix trim
accepts_passes = refl

-- The time of each request is free in the test; here it is the same.
abbrev allows_up_to_the_limit_then_blocks : ℕ → Bool
allows_up_to_the_limit_then_blocks now =
    let limiter = new 3 (60 * nanos) in
    let (first, limiter₁) = record_request limiter (text "k") now in
    let (second, limiter₂) = record_request limiter₁ (text "k") now in
    let (third, limiter₃) = record_request limiter₂ (text "k") now in
    let (fourth, limiter₄) = record_request limiter₃ (text "k") now in
    let (independent, limiter₅) = record_request limiter₄ (text "other") now in
    is_ok first && (is_ok second && (is_ok third && (not (is_ok fourth) && is_ok independent)))

allows_passes : allows_up_to_the_limit_then_blocks 7 ≡ true
unfolding new record_request admit lookup insert text text_eq
allows_passes = refl

abbrev account : ℕ → List AccountMeta → Option AccountMeta
account i [] = none
account zero (a ∷ rest) = some a
account (suc i) (a ∷ rest) = account i rest

abbrev signs : Option AccountMeta → Bool
signs none = false
signs (some a) = a.is_signer

abbrev writes : Option AccountMeta → Bool
writes none = false
writes (some a) = a.is_writable

abbrev token_instructions_are_well_formed : Sdk → Pubkey → Pubkey → Pubkey → Pubkey → Bool
token_instructions_are_well_formed sdk owner mint source dest =
    let create = create_ata_idempotent sdk owner owner mint dest in
    let transfer = token_transfer_checked sdk source mint dest owner 1500000 6 in
    text_eq create.program_id (program sdk associated_token_program_id)
    && (text_eq create.payload (1 ∷ [])
        && (length create.accounts == 6
            && (signs (account 0 create.accounts)
                && (writes (account 0 create.accounts)
                    && (text_eq transfer.program_id (program sdk token_program_id)
                        && (text_eq transfer.payload (12 ∷ (to_le_bytes 8 1500000 ++ 6 ∷ []))
                            && (length transfer.accounts == 4
                                && signs (account 3 transfer.accounts))))))))

token_instructions_pass :
    token_instructions_are_well_formed sdk
      (text "owner")
      (text "mint")
      (text "source")
      (text "dest")
    ≡ true
unfolding create_ata_idempotent token_transfer_checked program to_le_bytes text text_eq
token_instructions_pass = refl

abbrev sent_error : Text → AppError
sent_error message = map_send_error json (object (text "message") (string message))

abbrev is_expired : AppError → Bool
is_expired blockhash_expired = true
is_expired other = false

abbrev is_short : AppError → Bool
is_short insufficient_funds = true
is_short other = false

abbrev rejects_with : Text → AppError → Bool
rejects_with message (chain_rejected m) = text_eq m message
rejects_with message other = false

abbrev send_errors_are_classified : Bool
send_errors_are_classified =
    is_expired (sent_error (text "Blockhash not found"))
    && (is_expired (sent_error (text "block height exceeded"))
        && (is_short (
              sent_error (
                text
                  "Attempt to debit an account but found no record of a prior credit. insufficient funds"))
            && rejects_with (text "custom program error: 0x1")
                (sent_error (text "custom program error: 0x1"))))

send_errors_pass : send_errors_are_classified ≡ true
unfolding map_send_error classify text text_eq contains to_ascii_lowercase starts_with
send_errors_pass = refl
