-- ===== src/Chain/Solana/Errors.antt =====
-- `map_send_error` of solana.rs.
pub mod Classes
use mathlib.Core.Option.{get_or}
use xend.Common.{if◌then◌else◌, ◌||◌}
use xend.Common.Text.{Text, text, contains, to_ascii_lowercase}
use xend.Error.{AppError, blockhash_expired, insufficient_funds, chain_rejected}
use xend.Chain.Solana.Json.{Json}

-- The class of a message.
unfoldable pub classify : Text → AppError
classify message =
    let lower = to_ascii_lowercase message in
    if contains (text "blockhash not found") lower || contains (text "block height exceeded") lower
    then blockhash_expired
    else if contains (text "insufficient") lower
    then insufficient_funds
    else chain_rejected message

unfoldable pub map_send_error : (json : Json) → json.Value → AppError
unfolding classify
map_send_error json error =
    classify
      (get_or (json.as_str (json.index error (text "message"))) (text "transaction rejected"))
