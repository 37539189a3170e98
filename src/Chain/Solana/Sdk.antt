-- ===== src/Chain/Solana/Sdk.antt =====
-- What solana.rs uses of the crates `solana-sdk` and `bincode`.
use xend.Common.{ℕ, Bool, true, false, List, Option, Result}
use xend.Common.Text.{Text}
use xend.Common.Bytes.{Bytes}

-- The 32 bytes of an address.
abbrev pub Pubkey : Type 0
Pubkey = Bytes

pub record AccountMeta : Type 0 where
  pub pubkey : Pubkey
  pub is_signer : Bool
  pub is_writable : Bool

-- `AccountMeta::new` and `AccountMeta::new_readonly`.
abbrev pub writable : Pubkey → Bool → AccountMeta
writable key signer = record { pubkey = key; is_signer = signer; is_writable = true }

abbrev pub readonly : Pubkey → Bool → AccountMeta
readonly key signer = record { pubkey = key; is_signer = signer; is_writable = false }

-- The field `data` of the crate is `payload` here.
pub record Instruction : Type 0 where
  pub program_id : Pubkey
  pub accounts : List AccountMeta
  pub payload : Bytes

pub record Sdk : Type 1 where
  pub Hash : Type 0
  pub Keypair : Type 0
  pub Transaction : Type 0
  -- `Pubkey::from_str`, and its `to_string`.
  pub pubkey_from_str : Text → Option Pubkey
  pub pubkey_to_string : Pubkey → Text
  -- `Hash::from_str`, with the text of its error; `hash::hashv`.
  pub hash_from_str : Text → Result Hash Text
  pub hashv : List Bytes → Bytes
  -- `Pubkey::find_program_address`: the address and the bump.
  pub find_program_address : List Bytes → Pubkey → Pubkey × ℕ
  -- `Message::new_with_blockhash`, serialized.
  pub message : List Instruction → Pubkey → Hash → Bytes
  pub pubkey : Keypair → Pubkey
  pub sign_message : Keypair → Bytes → Bytes
  -- `bincode::deserialize`, with the text of its error; `Transaction::verify`.
  pub deserialize : Bytes → Result Transaction Text
  pub verify : Transaction → Bool
