-- ===== src/Chain/Solana/Methods.antt =====
-- The methods of `SolanaAdapter`, and the adapter as a value of the trait.
pub mod Witness
pub mod Build
pub mod Completes
pub mod Transfer
pub mod Names
use mathlib.Core.Option
use xend.Common.{
  ◌++◌, ℕ, ◌+◌, ◌*◌, Bool, true, false, List, [], ◌∷◌, Option, none, some, Result, ok, err, ok_or,
  map_err, not, if◌then◌else◌, any, ◌==◌,
}
use xend.Common.Text.{Text, text, strip_suffix, is_empty}
use xend.Common.Bytes.{Bytes}
use xend.Error.{AppError, bad_request, invalid_recipient}
use xend.Crates.{Base64}
use xend.Runtime.{
  Host, M, pure, lift, ◌>>=◌, ◌>>◌, system_time, RpcRequest, get_latest_blockhash, send_transaction,
  get_signature_statuses, get_balance, get_token_accounts_by_owner, get_token_supply,
  get_account_info, str, strs, settings, named, flag,
}
use xend.Chain.Adapter.{ChainAdapter, TransferIntent, UnsignedTx, Commitment}
use xend.Chain.Solana.Sdk.{Sdk, Pubkey, Instruction}
use xend.Chain.Solana.Json.{Json, Network}
use xend.Chain.Solana.Instructions.{
  system_transfer, associated_token_address, create_ata_idempotent, token_transfer_checked,
  sol_domain_key, try_u64,
}
use xend.Chain.Solana.Rpc.{
  post, commitment_option, blockhash_of, signature_of, commitment_of, lamports_of, token_total_of,
  decimals_of, owner_of,
}

-- The HTTP client is the `Network`.
pub record SolanaAdapter (sdk : Sdk) : Type 0 where
  pub rpc_url : Text
  pub sns_rpc_url : Text
  pub fee_payer : Option sdk.Keypair

-- `SolanaAdapter::new`.
abbrev pub new : {sdk : Sdk} → Text → Text → Option sdk.Keypair → SolanaAdapter sdk
new rpc_url sns_rpc_url fee_payer = record {
  rpc_url = rpc_url;
  sns_rpc_url = sns_rpc_url;
  fee_payer = fee_payer;
}

-- A transaction is valid for 90 seconds.
abbrev pub validity : ℕ
validity = 90 * 1000000

-- The label of a `.sol` name: not empty, with no dot.
abbrev pub single_label : Option Text → Option Text
single_label none = none
single_label (some label) =
    if is_empty label then none else if any (λ c. c == b'.') label then none else some label

unfoldable pub sol_label : Text → Option Text
sol_label name = single_label (strip_suffix (text ".sol") name)

module _ (sdk : Sdk) where
  -- The account that pays the network fee.
  unfoldable pub payer_of : Option sdk.Keypair → Pubkey → Pubkey
  payer_of none from = from
  payer_of (some keypair) from = sdk.pubkey keypair

  unfoldable pub verified : Result sdk.Transaction Text → Result (Unit {0}) AppError
  verified (err e) = err (bad_request (text "malformed signed transaction: " ++ e))
  verified (ok tx) =
      if sdk.verify tx
      then ok tt
      else err (bad_request (text "transaction signature verification failed"))

module _ (host : Host) (sdk : Sdk) (json : Json) (net : Network json) (base64 : Base64)
    (self : SolanaAdapter sdk) where
  unfoldable pub latest_blockhash : M sdk.Hash
  latest_blockhash = do
    body ← post json net (text "rpc") (record {
      url = self.rpc_url;
      method = get_latest_blockhash;
      params = commitment_option "finalized" ∷ [];
    })
    lift (blockhash_of json sdk body)

  unfoldable pub native_balance : Text → M ℕ
  native_balance address = do
    body ← post json net (text "rpc") (record {
      url = self.rpc_url;
      method = get_balance;
      params = str address ∷ commitment_option "confirmed" ∷ [];
    })
    lift (lamports_of json body)

  unfoldable pub token_balance : Text → Text → M ℕ
  token_balance owner mint = do
    lift (ok_or (sdk.pubkey_from_str mint) (bad_request (text "invalid mint")))
    body ← post json net (text "rpc") (record {
      url = self.rpc_url;
      method = get_token_accounts_by_owner;
      params =
          str owner
          ∷ settings ((text "mint", named mint) ∷ [])
          ∷ settings ((text "encoding", named (text "jsonParsed")) ∷ [])
          ∷ [];
    })
    lift (token_total_of json body)

  unfoldable pub mint_decimals : Pubkey → M ℕ
  mint_decimals mint = do
    body ← post json net (text "rpc") (record {
      url = self.rpc_url;
      method = get_token_supply;
      params = str (sdk.pubkey_to_string mint) ∷ [];
    })
    lift (decimals_of json body)

  unfoldable pub sns_domain_owner : Pubkey → M Pubkey
  sns_domain_owner domain = do
    body ← post json net (text "sns rpc") (record {
      url = self.sns_rpc_url;
      method = get_account_info;
      params =
          str (sdk.pubkey_to_string domain)
          ∷ settings (
              (text "encoding", named (text "base64"))
              ∷ (text "commitment", named (text "confirmed"))
              ∷ [])
          ∷ [];
    })
    lift (owner_of json base64 body)

  unfoldable pub transfer_instructions :
      Pubkey → Pubkey → Pubkey → ℕ → Option Text → M (List Instruction)
  transfer_instructions payer from to amount none =
      lift (elim (system_transfer sdk from to amount) [ ok i ↦ ok (i ∷ []) | err e ↦ err e ])
  transfer_instructions payer from to amount (some mint_text) = do
    mint ← lift (ok_or (sdk.pubkey_from_str mint_text) (bad_request (text "invalid mint")))
    units ←
        lift
          (ok_or (try_u64 amount) (bad_request (text "amount exceeds the maximum for this token")))
    decimals ← mint_decimals mint
    let source_ata = associated_token_address sdk from mint
    let dest_ata = associated_token_address sdk to mint
    pure (
        create_ata_idempotent sdk payer to mint dest_ata
        ∷ token_transfer_checked sdk source_ata mint dest_ata from units decimals
        ∷ [])

  unfoldable pub build_transfer : TransferIntent → M UnsignedTx
  build_transfer intent = do
    from ←
        lift (ok_or (sdk.pubkey_from_str intent.from) (bad_request (text "invalid sender address")))
    to ← lift (ok_or (sdk.pubkey_from_str intent.to) invalid_recipient)
    let payer = payer_of sdk self.fee_payer from
    instructions ← transfer_instructions payer from to intent.amount intent.mint
    blockhash ← latest_blockhash
    let message = sdk.message instructions payer blockhash
    now ← system_time host
    pure (record {
      message = message;
      valid_until = now + validity;
      fee_payer_signature = Option.map (λ k. sdk.sign_message k message) self.fee_payer;
    })

  unfoldable pub resolve_name : Text → M Text
  resolve_name name = do
    label ← lift (ok_or (sol_label name) invalid_recipient)
    owner ← sns_domain_owner (sol_domain_key sdk label)
    pure (sdk.pubkey_to_string owner)

  unfoldable pub validate_signed : Bytes → M (Unit {0})
  validate_signed signed = lift (verified sdk (sdk.deserialize signed))

  unfoldable pub broadcast : Bytes → M Text
  broadcast signed = do
    body ← post json net (text "rpc") (record {
      url = self.rpc_url;
      method = send_transaction;
      params =
          str (base64.encode signed)
          ∷ settings (
              (text "encoding", named (text "base64"))
              ∷ (text "preflightCommitment", named (text "confirmed"))
              ∷ [])
          ∷ [];
    })
    lift (signature_of json body)

  unfoldable pub status : Text → M Commitment
  status signature = do
    body ← post json net (text "rpc") (record {
      url = self.rpc_url;
      method = get_signature_statuses;
      params =
          strs (signature ∷ []) ∷ settings ((text "searchTransactionHistory", flag true) ∷ []) ∷ [];
    })
    pure (commitment_of json body)

  unfoldable pub balance_of : Text → Option Text → M ℕ
  balance_of address none = native_balance address
  balance_of address (some mint) = token_balance address mint

  unfoldable pub balance : Text → Option Text → M ℕ
  balance address mint = do
    lift (ok_or (sdk.pubkey_from_str address) (bad_request (text "invalid address")))
    balance_of address mint

  abbrev pub solana : ChainAdapter
  solana = record {
    chain = text "solana";
    build_transfer = build_transfer;
    resolve_name = resolve_name;
    validate_signed = validate_signed;
    broadcast = broadcast;
    status = status;
    balance = balance;
  }
