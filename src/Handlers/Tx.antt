-- ===== src/Handlers/Tx.antt =====
-- backend/src/handlers/tx.rs
pub mod Stored
pub mod Once
pub mod Retries
pub mod Duplicate
pub mod Unrecorded
pub mod Awaits
pub mod Listed
pub mod Shown
use mathlib.Core.Option
use xend.Common.{ℕ, ◌/◌, Option, none, some, ok_or}
use xend.Common.Text.{Text, text}
use xend.Common.Decimal.{parse_u128}
use xend.Common.Bytes.{Bytes}
use xend.Error.{bad_request}
use xend.Runtime.{Host, M, pure, lift, ◌>>=◌, ◌>>◌}
use xend.Store.Wallets.{find_id_by_pubkey}
use xend.Store.Transactions.{Existing, find_by_idempotency, insert_pending, mark_submitted}
use xend.Chain.Adapter.{ChainAdapter, Commitment, processed, confirmed, finalized, failed}
use xend.Crates.{Base64}

pub record BuildRequest : Type 0 where
  pub from : Text
  pub to : Text
  pub amount : Text
  pub mint : Option Text

pub record BuildResponse : Type 0 where
  pub message : Text
  pub valid_until : ℕ
  pub fee_payer_signature : Option Text

pub record SubmitRequest : Type 0 where
  pub signed : Text
  pub idempotency_key : Text
  pub pubkey : Option Text
  pub to : Option Text
  pub amount : Option Text
  pub mint : Option Text

pub record SubmitResponse : Type 0 where
  pub signature : Text
  pub status : Text

pub record StatusResponse : Type 0 where
  pub signature : Text
  pub status : Text

-- Times are in microseconds, and a response has whole seconds.
unfoldable pub seconds : ℕ → ℕ
seconds micros = micros / 1000000

unfoldable pub commitment_name : Commitment → Text
commitment_name processed = text "processed"
commitment_name confirmed = text "confirmed"
commitment_name finalized = text "finalized"
commitment_name failed = text "failed"

module _ (host : Host) (base64 : Base64) (chain : ChainAdapter) where
  unfoldable pub build : BuildRequest → M BuildResponse
  build req = do
    amount ←
        lift
          (ok_or (parse_u128 req.amount) (bad_request (text "amount must be a base-unit integer")))
    unsigned ←
        chain.build_transfer
          (record { from = req.from; to = req.to; amount = amount; mint = req.mint })
    pure (record {
      message = base64.encode unsigned.message;
      valid_until = seconds unsigned.valid_until;
      fee_payer_signature = Option.map base64.encode unsigned.fee_payer_signature;
    })

  -- The sender's wallet, where the request names one.
  unfoldable pub sender_wallet : Option Text → M (Option ℕ)
  sender_wallet none = pure none
  sender_wallet (some pubkey) = find_id_by_pubkey host pubkey

  -- The claim of a new key.
  unfoldable pub claim : SubmitRequest → M (Unit {0})
  claim req = do
    wallet_id ← sender_wallet req.pubkey
    insert_pending host (record {
      wallet_id = wallet_id;
      idempotency_key = req.idempotency_key;
      to_address = req.to;
      amount = req.amount;
      mint = req.mint;
    })

  -- The end of `submit`: validate, broadcast, record.
  unfoldable pub relay : Text → Bytes → M SubmitResponse
  relay key signed = do
    chain.validate_signed signed
    signature ← chain.broadcast signed
    mark_submitted host key signature
    pure (record { signature = signature; status = text "submitted" })

  -- A known key: its signature if there is one, and otherwise the broadcast is made (again).
  unfoldable pub resume : Text → Bytes → Text → Option Text → M SubmitResponse
  resume key signed status (some signature) =
      pure (record { signature = signature; status = status })
  resume key signed status none = relay key signed

  unfoldable pub after_lookup : SubmitRequest → Bytes → Option Existing → M SubmitResponse
  after_lookup req signed (some e) = resume req.idempotency_key signed e.status e.signature
  after_lookup req signed none = do claim req; relay req.idempotency_key signed

  unfoldable pub submit : SubmitRequest → M SubmitResponse
  submit req = do
    signed ← lift (
        ok_or (base64.decode req.signed)
          (bad_request (text "signed transaction is not valid base64")))
    found ← find_by_idempotency host req.idempotency_key
    after_lookup req signed found

  unfoldable pub status : Text → M StatusResponse
  status signature = do
    commitment ← chain.status signature
    pure (record { signature = signature; status = commitment_name commitment })
