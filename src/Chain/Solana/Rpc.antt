-- ===== src/Chain/Solana/Rpc.antt =====
-- The JSON-RPC calls of solana.rs: each posts one request and reads the body of the answer.
pub mod Readings
pub mod Status
use xend.Common.{
  String, ℕ, suc, ◌+◌, ◌-◌, ◌^◌, min, true, false, List, [], ◌∷◌, ◌++◌, Option, none, some, Result,
  ok, err, not, Bool, ok_or, and_then, map_err, length, take, drop, ltb, leb, if◌then◌else◌,
}
use xend.Common.Text.{Text, text, text_eq}
use xend.Common.Bytes.{Bytes}
use xend.Common.Decimal.{parse_u128, u128_limit}
use xend.Error.{AppError, bad_request, network, invalid_recipient}
use xend.Crates.{Base64}
use xend.Runtime.{
  M, World, pure, lift, ◌>>=◌, ◌>>◌, RpcRequest, Method, get_latest_blockhash, send_transaction,
  get_signature_statuses, get_balance, get_token_accounts_by_owner, get_token_supply,
  get_account_info, Param, str, strs, settings, Setting, named, flag,
}
use xend.Chain.Adapter.{Commitment, processed, confirmed, finalized, failed}
use xend.Chain.Solana.Sdk.{Sdk, Pubkey}
use xend.Chain.Solana.Json.{Json, HttpReply, send_failed, decode_failed, decoded, Network}
use xend.Chain.Solana.Errors.{map_send_error}

module _ {V : Type 0} where
  -- The prefix is `rpc`, or `sns rpc` for a name lookup.
  abbrev pub answer : Text → HttpReply V → Result V AppError
  answer prefix (send_failed e) = err (network (prefix ++ (text " request failed: " ++ e)))
  answer prefix (decode_failed e) = err (network (prefix ++ (text " decode failed: " ++ e)))
  answer prefix (decoded value) = ok value

abbrev pub commitment_option : String → Param
commitment_option level = settings ((text "commitment", named (text level)) ∷ [])

module _ (json : Json) (net : Network json) where
  -- Posts a request and decodes the answer.
  unfoldable pub post : Text → RpcRequest → M json.Value
  post prefix request w = (
    answer prefix (net.reply w.step request),
    record w { sent = request ∷ w.sent; step = suc w.step },
  )

module _ (json : Json) where
  -- `value["result"]["value"]`.
  abbrev pub result_value : json.Value → json.Value
  result_value body = json.index (json.index body (text "result")) (text "value")

  -- A call that reports the field `error` of the body, printed behind the name of the method.
  abbrev pub checked : {A : Type 0} → Text → json.Value → Result A AppError → Result A AppError
  checked method body rest = elim (json.get body (text "error")) [
    | some error ↦ err (network (method ++ (text " failed: " ++ json.print error)))
    | none ↦ rest
  ]

  unfoldable pub blockhash_of : (sdk : Sdk) → json.Value → Result sdk.Hash AppError
  blockhash_of sdk body = elim (json.as_str (json.index (result_value body) (text "blockhash"))) [
    | none ↦ err (network (text "rpc response missing blockhash"))
    | some blockhash ↦
        map_err (λ e. network (text "rpc returned an invalid blockhash: " ++ e))
          (sdk.hash_from_str blockhash)
  ]

  unfoldable pub signature_of : json.Value → Result Text AppError
  signature_of body = elim (json.get body (text "error")) [
    | some error ↦ err (map_send_error json error)
    | none ↦
        ok_or (json.as_str (json.index body (text "result")))
          (network (text "sendTransaction returned no signature"))
  ]

  unfoldable pub level_of : Option Text → Commitment
  level_of none = processed
  level_of (some name) =
      if text_eq name (text "finalized")
      then finalized
      else if text_eq name (text "confirmed")
      then confirmed
      else processed

  -- The first entry of the statuses; `Null` means that there is no record.
  unfoldable pub commitment_of : json.Value → Commitment
  commitment_of body =
      let value = json.nth (result_value body) 0 in
      if json.is_null value
      then processed
      else if not (json.is_null (json.index value (text "err")))
      then failed
      else level_of (json.as_str (json.index value (text "confirmationStatus")))

  unfoldable pub lamports_of : json.Value → Result ℕ AppError
  lamports_of body =
      checked (text "getBalance") body
        (ok_or (json.as_u64 (result_value body)) (network (text "getBalance returned no value")))

  unfoldable pub saturating_add : ℕ → ℕ → ℕ
  saturating_add a b = min (a + b) (u128_limit - 1)

  abbrev pub token_amount : json.Value → json.Value
  token_amount account =
      json.index
        (json.index
          (json.index
            (json.index (json.index (json.index account (text "account")) (text "data"))
              (text "parsed"))
            (text "info"))
          (text "tokenAmount"))
        (text "amount")

  abbrev pub parsed_amount : Option Text → Result ℕ AppError
  parsed_amount none = err (network (text "token account missing amount"))
  parsed_amount (some amount) =
      ok_or (parse_u128 amount) (network (text "token amount is not an integer"))

  unfoldable pub amount_of : json.Value → Result ℕ AppError
  amount_of account = parsed_amount (json.as_str (token_amount account))

  -- The loop over the accounts: the first bad amount ends it.
  unfoldable pub add_amounts : ℕ → List json.Value → Result ℕ AppError
  unfolding saturating_add
  add_amounts total [] = ok total
  add_amounts total (account ∷ accounts) =
      and_then (amount_of account) (λ parsed. add_amounts (saturating_add total parsed) accounts)

  unfoldable pub token_total_of : json.Value → Result ℕ AppError
  token_total_of body =
      checked (text "getTokenAccountsByOwner") body (elim (json.as_array (result_value body)) [
        | none ↦ err (network (text "getTokenAccountsByOwner returned no value"))
        | some accounts ↦ add_amounts 0 accounts
      ])

  unfoldable pub decimals_of : json.Value → Result ℕ AppError
  decimals_of body = elim (json.as_u64 (json.index (result_value body) (text "decimals"))) [
    | none ↦ err (bad_request (text "mint not found or is not a token mint"))
    | some decimals ↦
        if ltb decimals 256 then ok decimals else err (network (text "invalid mint decimals"))
  ]

  -- `data.get(32..64)`: the bytes in the range, if it lies in the data.
  unfoldable pub owner_bytes : Bytes → Option Pubkey
  owner_bytes account = if leb 64 (length account) then some (take 32 (drop 32 account)) else none

  unfoldable pub owner_of : Base64 → json.Value → Result Pubkey AppError
  owner_of base64 body =
      let value = result_value body in
      if json.is_null value
      then err invalid_recipient
      else elim (json.as_str (json.nth (json.index value (text "data")) 0)) [
        | none ↦ err (network (text "sns account has no data"))
        | some encoded ↦ elim (base64.decode encoded) [
          | none ↦ err (network (text "sns account data is not base64"))
          | some account ↦
              ok_or (owner_bytes account) (network (text "sns account data is too short"))
        ]
      ]
