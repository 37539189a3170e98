-- ===== src/Chain/Adapter.antt =====
-- backend/src/chain/adapter.rs: the interface between the handlers and a chain.
pub mod Laws
use xend.Common.{ℕ, Option}
use xend.Common.Text.{Text}
use xend.Common.Bytes.{Bytes}
use xend.Runtime.{M}

-- `valid_until` is in microseconds since the epoch.
pub record UnsignedTx : Type 0 where
  pub message : Bytes
  pub valid_until : ℕ
  pub fee_payer_signature : Option Bytes

pub data Commitment : Type 0 where
  processed confirmed finalized failed : Commitment

pub record TransferIntent : Type 0 where
  pub from : Text
  pub to : Text
  pub amount : ℕ
  pub mint : Option Text

-- The trait; its methods may call the network.
pub record ChainAdapter : Type 0 where
  pub chain : Text
  pub build_transfer : TransferIntent → M UnsignedTx
  pub resolve_name : Text → M Text
  pub validate_signed : Bytes → M (Unit {0})
  pub broadcast : Bytes → M Text
  pub status : Text → M Commitment
  pub balance : Text → Option Text → M ℕ
