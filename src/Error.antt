-- ===== src/Error.antt =====
-- backend/src/error.rs: the error type of the backend and its HTTP response. The payload of
-- `Database` is the text that `sqlx::Error` displays. Logging is not modelled.
pub mod Response
use xend.Common.{ℕ, List, [], ◌∷◌, ◌++◌, Option, none, some}
use xend.Common.Text.{Text, text}
use xend.Common.Decimal.{to_string}

pub data AppError : Type 0 where
  bad_request : Text → AppError
  unauthorized : AppError
  rate_limited : (retry_after_secs : ℕ) → AppError
  insufficient_funds : AppError
  invalid_recipient : AppError
  blockhash_expired : AppError
  chain_rejected : Text → AppError
  network : Text → AppError
  database : Text → AppError
  internal : Text → AppError

-- `Display`, from the `#[error(...)]` attributes.
unfoldable pub display : AppError → Text
display (bad_request message) = text "invalid request: " ++ message
display unauthorized = text "unauthorized"
display (rate_limited secs) = text "rate limited; retry after " ++ (to_string secs ++ text "s")
display insufficient_funds = text "insufficient funds"
display invalid_recipient = text "invalid recipient address"
display blockhash_expired = text "blockhash expired"
display (chain_rejected message) = text "chain rejected: " ++ message
display (network message) = text "upstream/network error: " ++ message
display (database message) = text "database error: " ++ message
display (internal message) = text "internal error: " ++ message

unfoldable pub public_message : AppError → Text
public_message (database message) = text "internal error"
public_message (internal message) = text "internal error"
public_message other = display other

-- The HTTP status, and the JSON object under `error`.
pub record ErrorResponse : Type 0 where
  pub status : ℕ
  pub code : Text
  pub message : Text
  pub retry_after : Option ℕ

unfoldable pub status_and_code : AppError → ℕ × Text
status_and_code (bad_request message) = (400, text "bad_request")
status_and_code unauthorized = (401, text "unauthorized")
status_and_code (rate_limited secs) = (429, text "rate_limited")
status_and_code insufficient_funds = (422, text "insufficient_funds")
status_and_code invalid_recipient = (422, text "invalid_recipient")
status_and_code blockhash_expired = (409, text "blockhash_expired")
status_and_code (chain_rejected message) = (422, text "chain_rejected")
status_and_code (network message) = (502, text "network")
status_and_code (database message) = (500, text "internal")
status_and_code (internal message) = (500, text "internal")

unfoldable pub retry_after : AppError → Option ℕ
retry_after (rate_limited secs) = some secs
retry_after other = none

unfoldable pub into_response : AppError → ErrorResponse
unfolding status_and_code retry_after public_message
into_response e =
    let (status, code) = status_and_code e in
    record { status = status; code = code; message = public_message e; retry_after = retry_after e }
