-- ===== src/Chain/Solana/Instructions.antt =====
-- The instructions of solana.rs, and the addresses that it derives.
pub mod Layout
use mathlib.Core.Option.{get_or}
use xend.Common.{ℕ, ◌^◌, true, false, List, [], ◌∷◌, ◌++◌, Option, none, some, Result, ok, err, ltb}
use xend.Common.{replicate, if◌then◌else◌}
use xend.Common.Text.{Text, text, as_bytes}
use xend.Common.Bytes.{to_le_bytes}
use xend.Error.{AppError, bad_request}
use xend.Chain.Solana.Sdk.{Sdk, Pubkey, Instruction, writable, readonly}

abbrev pub token_program_id : Text
token_program_id = text "TokenkegQfeZyiNwAJbNbGKPFXCWuBvf9Ss623VQ5DA"

abbrev pub associated_token_program_id : Text
associated_token_program_id = text "ATokenGPvbdGVxr1b2hvZbsiqW5xWH25efTNsLJA8knL"

abbrev pub system_program_id : Text
system_program_id = text "11111111111111111111111111111111"

abbrev pub name_program_id : Text
name_program_id = text "namesLPneVptA9Z5rqUDD9tMTWEJwofgaYwp8cawRkX"

abbrev pub sol_tld_authority : Text
sol_tld_authority = text "58PwtjSDuFHuUkYjH9BYnnQKHfwo9reZhC2zMJv9JPkx"

abbrev pub sns_hash_prefix : Text
sns_hash_prefix = text "SPL Name Service"

-- `u64::try_from` of a `u128`.
abbrev pub try_u64 : ℕ → Option ℕ
try_u64 n = if ltb n (2 ^ 64) then some n else none

abbrev transfer_or_error : Pubkey → Pubkey → Pubkey → Option ℕ → Result Instruction AppError
transfer_or_error system from to none =
    err (bad_request (text "amount exceeds the maximum for SOL"))
transfer_or_error system from to (some lamports) = ok (record {
  program_id = system;
  accounts = writable from true ∷ writable to false ∷ [];
  payload = to_le_bytes 4 2 ++ to_le_bytes 8 lamports;
})

module _ (sdk : Sdk) where
  -- The ids are constants of the program; `expect` would panic on one that is no address, and the
  -- empty key stands for that here.
  unfoldable pub program : Text → Pubkey
  program id = get_or (sdk.pubkey_from_str id) []

  -- `Pubkey::default()` is 32 zero bytes.
  unfoldable pub sol_domain_key : Text → Pubkey
  sol_domain_key label =
      let hashed = sdk.hashv (as_bytes sns_hash_prefix ∷ as_bytes label ∷ []) in
      (sdk.find_program_address (hashed ∷ replicate 32 0 ∷ program sol_tld_authority ∷ [])
        (program name_program_id)).0

  unfoldable pub system_transfer : Pubkey → Pubkey → ℕ → Result Instruction AppError
  system_transfer from to amount =
      transfer_or_error (program system_program_id) from to (try_u64 amount)

  unfoldable pub associated_token_address : Pubkey → Pubkey → Pubkey
  associated_token_address owner mint =
      (sdk.find_program_address (owner ∷ program token_program_id ∷ mint ∷ [])
        (program associated_token_program_id)).0

  unfoldable pub create_ata_idempotent : Pubkey → Pubkey → Pubkey → Pubkey → Instruction
  create_ata_idempotent funder owner mint ata = record {
    program_id = program associated_token_program_id;
    accounts =
        writable funder true
        ∷ writable ata false
        ∷ readonly owner false
        ∷ readonly mint false
        ∷ readonly (program system_program_id) false
        ∷ readonly (program token_program_id) false
        ∷ [];
    payload = 1 ∷ [];
  }

  unfoldable pub token_transfer_checked : Pubkey → Pubkey → Pubkey → Pubkey → ℕ → ℕ → Instruction
  token_transfer_checked source mint destination owner amount decimals = record {
    program_id = program token_program_id;
    accounts =
        writable source false
        ∷ readonly mint false
        ∷ writable destination false
        ∷ readonly owner true
        ∷ [];
    payload = 12 ∷ (to_le_bytes 8 amount ++ decimals ∷ []);
  }
