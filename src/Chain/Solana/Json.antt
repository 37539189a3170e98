-- ===== src/Chain/Solana/Json.antt =====
-- What solana.rs uses of `serde_json::Value` to read a response, and what a request may answer.
use xend.Common.{ℕ, Bool, List, Option, ◌<◌, ◌^◌, ◌≡◌, some}
use xend.Common.Text.{Text}
use xend.Runtime.{RpcRequest}

pub record Json : Type 1 where
  pub Value : Type 0
  -- `value["key"]` and `value[0]`: `Null` where there is nothing.
  pub index : Value → Text → Value
  pub nth : Value → ℕ → Value
  pub get : Value → Text → Option Value
  pub is_null : Value → Bool
  pub as_str : Value → Option Text
  pub as_u64 : Value → Option ℕ
  pub as_array : Value → Option (List Value)
  pub print : Value → Text

-- `as_u64` returns a `u64`.
abbrev pub ReadsU64 : Json → Type 0
ReadsU64 json = (v : json.Value) (n : ℕ) → json.as_u64 v ≡ some n → n < 2 ^ 64

-- What `send` and then `json` give for a request: an error of either, as text, or the body.
pub data HttpReply (V : Type 0) : Type 0 where
  send_failed : Text → HttpReply V
  decode_failed : Text → HttpReply V
  decoded : V → HttpReply V

-- The answers of the network, one for each step at which a request is sent.
pub record Network (json : Json) : Type 0 where
  pub reply : ℕ → RpcRequest → HttpReply json.Value
