-- ===== src/Client.antt =====
-- backend/src/bin/gasless_client.rs: how a client answers `build` with a signed transaction, as the
-- mobile SDK does. The resolution of a name, the printing and the HTTP calls are left out.
pub mod Wire
pub mod Session
use xend.Common.{ℕ, ◌%◌, List, [], ◌∷◌, ◌++◌, Option, none, some, length}
use xend.Common.Text.{Text, text}
use xend.Common.Bytes.{Bytes}
use xend.Common.Decimal.{to_string}
use xend.Crates.{Base64}
use xend.Handlers.Tx.{BuildResponse, SubmitRequest}

-- The sender's key: its address, how it signs a message, and how a signature is displayed.
pub record Signer : Type 0 where
  pub address : Text
  pub sign_message : Bytes → Bytes
  pub display : Bytes → Text

-- In signer order: the fee payer first when the fee is sponsored, then the sender.
unfoldable pub signatures : Option Bytes → Bytes → List Bytes
signatures none user_sig = user_sig ∷ []
signatures (some fee_payer_sig) user_sig = fee_payer_sig ∷ user_sig ∷ []

abbrev pub extend_all : List Bytes → Bytes → Bytes
extend_all [] message = message
extend_all (s ∷ rest) message = s ++ extend_all rest message

-- The count is cast to a `u8`.
unfoldable pub wire : List Bytes → Bytes → Bytes
wire sigs message = (length sigs % 256) ∷ extend_all sigs message

-- The fee payer's signature, if there is one and it is base64.
abbrev pub decode_signature : Base64 → Option Text → Option (Option Bytes)
decode_signature base64 none = some none
decode_signature base64 (some sig) = elim (base64.decode sig) [
  | none ↦ none
  | some s ↦ some (some s)
]

unfoldable pub request : Base64 → Signer → Text → ℕ → Bytes → Option Bytes → SubmitRequest
request base64 from to lamports message fee_payer_sig =
    let user_sig = from.sign_message message in
    record {
      signed = base64.encode (wire (signatures fee_payer_sig user_sig) message);
      idempotency_key = text "gasless-" ++ from.display user_sig;
      pubkey = some from.address;
      to = some to;
      amount = some (to_string lamports);
      mint = none;
    }

-- The body of the call of `submit`; there is none if the answer of `build` does not decode.
unfoldable pub submission : Base64 → Signer → Text → ℕ → BuildResponse → Option SubmitRequest
submission base64 from to lamports build = elim (base64.decode build.message) [
  | none ↦ none
  | some message ↦ elim (decode_signature base64 build.fee_payer_signature) [
    | none ↦ none
    | some fee_payer_sig ↦ some (request base64 from to lamports message fee_payer_sig)
  ]
]
