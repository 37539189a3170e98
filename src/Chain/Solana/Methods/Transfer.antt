-- ===== src/Chain/Solana/Methods/Transfer.antt =====
-- The instructions that a transfer is made of.
use mathlib.Core.Option.{get_or}
use mathlib.Core.Path.{subst}
use xend.Common.{
  ℕ, ◌<◌, ◌^◌, ◌≡◌, refl, sym, true, false, List, [], ◌∷◌, Option, none, some, Result, ok, err,
  arith, ok_or,
}
use xend.Common.Text.{Text, text}
use xend.Error.{AppError}
use xend.Crates.{Base64}
use xend.Runtime.{Host, World, lift}
use xend.Runtime.Success.{on_success, lift-eq-ok, pure-eq-ok}
use xend.Chain.Solana.Sdk.{Sdk, Pubkey, Instruction, writable, readonly}
use xend.Chain.Solana.Json.{Json, Network}
use xend.Chain.Solana.Rpc.Readings.{decimals_of-IsByte}
use xend.Chain.Solana.Instructions.{
  system_transfer, create_ata_idempotent, token_transfer_checked, associated_token_address, try_u64,
  program,
}
use xend.Chain.Solana.Instructions.Layout.{
  IsSystemTransfer, IsTransferChecked, system_transfer-IsSystemTransfer,
  token_transfer_checked-IsTransferChecked,
}
use xend.Chain.Solana.Methods.{SolanaAdapter, mint_decimals, transfer_instructions}

pub lift-ok_or :
    {A : Type 0} (o : Option A) (x : AppError) (a : A) (w w' : World)
    → lift (ok_or o x) w ≡ (ok a, w')
    → (o ≡ some a) × (w ≡ w')
lift-ok_or none x a w w' e = absurd (ground (arith, lift-eq-ok _ a w w' e))
lift-ok_or (some b) x a w w' e = ground (arith, lift-eq-ok _ a w w' e)

-- The key of a built-in program.
abbrev pub address : Sdk → Text → Pubkey
address sdk id = get_or (sdk.pubkey_from_str id) []

-- The account of an owner for a mint, as every client of the token program derives it.
abbrev pub token_account : Sdk → Pubkey → Pubkey → Pubkey
token_account sdk owner mint =
    (sdk.find_program_address
      (owner ∷ address sdk (text "TokenkegQfeZyiNwAJbNbGKPFXCWuBvf9Ss623VQ5DA") ∷ mint ∷ [])
      (address sdk (text "ATokenGPvbdGVxr1b2hvZbsiqW5xWH25efTNsLJA8knL"))).0

-- One native transfer of the amount by the system program, signed by the sender, out of its account
-- into the recipient's.
pub record IsNative (sdk : Sdk) (from to : Pubkey) (amount : ℕ) (is : List Instruction)
    : Type 0 where
  pub transfer : Instruction
  pub only : is ≡ transfer ∷ []
  pub by_program : transfer.program_id ≡ address sdk (text "11111111111111111111111111111111")
  pub accounts : transfer.accounts ≡ writable from true ∷ writable to false ∷ []
  pub payload : IsSystemTransfer transfer.payload amount

-- The instruction of the associated token account program that creates the account of the owner for
-- the mint and does nothing where it is there (its payload is 1; 0 would fail). The funder signs.
pub record CreatesAccount (sdk : Sdk) (funder owner mint : Pubkey) (i : Instruction) : Type 0 where
  pub by_program : i.program_id ≡ address sdk (text "ATokenGPvbdGVxr1b2hvZbsiqW5xWH25efTNsLJA8knL")
  pub accounts :
      i.accounts
      ≡ writable funder true
        ∷ writable (token_account sdk owner mint) false
        ∷ readonly owner false
        ∷ readonly mint false
        ∷ readonly (address sdk (text "11111111111111111111111111111111")) false
        ∷ readonly (address sdk (text "TokenkegQfeZyiNwAJbNbGKPFXCWuBvf9Ss623VQ5DA")) false
        ∷ []
  pub payload : i.payload ≡ 1 ∷ []

-- The recipient's token account is created where it is missing, at the payer's cost; then the token
-- program moves the amount from the sender's token account to the recipient's, signed by the sender.
pub record IsToken (sdk : Sdk) (payer from to : Pubkey) (amount : ℕ) (m : Text)
    (is : List Instruction) : Type 0 where
  pub mint : Pubkey
  pub decimals : ℕ
  pub creation : Instruction
  pub transfer : Instruction
  pub names : sdk.pubkey_from_str m ≡ some mint
  pub both : is ≡ creation ∷ transfer ∷ []
  pub creates : CreatesAccount sdk payer to mint creation
  pub by_program :
      transfer.program_id ≡ address sdk (text "TokenkegQfeZyiNwAJbNbGKPFXCWuBvf9Ss623VQ5DA")
  pub accounts :
      transfer.accounts
      ≡ writable (token_account sdk from mint) false
        ∷ readonly mint false
        ∷ writable (token_account sdk to mint) false
        ∷ readonly from true
        ∷ []
  pub payload : IsTransferChecked transfer.payload amount decimals

abbrev pub IsTransfer : Sdk → Pubkey → Pubkey → Pubkey → ℕ → Option Text → List Instruction → Type 0
IsTransfer sdk payer from to amount none is = IsNative sdk from to amount is
IsTransfer sdk payer from to amount (some m) is = IsToken sdk payer from to amount m is

system_transfer-accounts :
    (sdk : Sdk) (from to : Pubkey) (amount : ℕ) (i : Instruction)
    → system_transfer sdk from to amount ≡ ok i
    → i.accounts ≡ writable from true ∷ writable to false ∷ []
unfolding system_transfer
system_transfer-accounts sdk from to amount i e = ground arith

system_transfer-program :
    (sdk : Sdk) (from to : Pubkey) (amount : ℕ) (i : Instruction)
    → system_transfer sdk from to amount ≡ ok i
    → i.program_id ≡ address sdk (text "11111111111111111111111111111111")
unfolding system_transfer program
system_transfer-program sdk from to amount i e = ground arith

create_ata_idempotent-CreatesAccount :
    (sdk : Sdk) (funder owner mint : Pubkey)
    → CreatesAccount sdk funder owner mint
        (create_ata_idempotent sdk funder owner mint (associated_token_address sdk owner mint))
unfolding create_ata_idempotent associated_token_address program
create_ata_idempotent-CreatesAccount sdk funder owner mint = record {
  by_program = refl;
  accounts = refl;
  payload = refl;
}

transfer-IsNative :
    (sdk : Sdk) (from to : Pubkey) (amount : ℕ) (r : Result Instruction AppError)
    (is : List Instruction)
    → system_transfer sdk from to amount ≡ r
    → (elim r [ ok i ↦ ok (i ∷ []) | err e ↦ err e ]) ≡ ok is
    → IsNative sdk from to amount is
transfer-IsNative sdk from to amount (ok i) is e h = record {
  transfer = i;
  only = ground arith;
  by_program = system_transfer-program sdk from to amount i e;
  accounts = system_transfer-accounts sdk from to amount i e;
  payload = (system_transfer-IsSystemTransfer sdk from to amount i e).1;
}
transfer-IsNative sdk from to amount (err x) is e h = absurd (ground arith)

try_u64-eq-some :
    (amount units : ℕ) → try_u64 amount ≡ some units → (units ≡ amount) × (amount < 2 ^ 64)
try_u64-eq-some amount units e = (ground arith, ground arith)

module _ (host : Host) (sdk : Sdk) (json : Json) (net : Network json) (base64 : Base64)
    (self : SolanaAdapter sdk) where
  mint_decimals-IsByte :
      (mint : Pubkey) (w w' : World) (n : ℕ)
      → mint_decimals host sdk json net base64 self mint w ≡ (ok n, w')
      → n < 256
  unfolding mint_decimals
  mint_decimals-IsByte mint w w' n e =
      on_success _ _ w n w' e
        λ body u _ rest. decimals_of-IsByte json body n (lift-eq-ok _ n u w' rest).0

  transfer-IsToken :
      (payer from to : Pubkey) (amount units decimals : ℕ) (m : Text) (mint : Pubkey)
      (is : List Instruction)
      → sdk.pubkey_from_str m ≡ some mint
      → try_u64 amount ≡ some units
      → decimals < 256
      → create_ata_idempotent sdk payer to mint (associated_token_address sdk to mint)
          ∷ token_transfer_checked sdk
              (associated_token_address sdk from mint)
              mint
              (associated_token_address sdk to mint)
              from
              units
              decimals
          ∷ []
        ≡ is
      → IsToken sdk payer from to amount m is
  transfer-IsToken payer from to amount units decimals m mint is e u d p =
      let (same, small) = try_u64-eq-some amount units u in
      record {
        mint = mint;
        decimals = decimals;
        transfer =
            token_transfer_checked sdk (associated_token_address sdk from mint) mint
              (associated_token_address sdk to mint) from units decimals;
        names = e;
        creation = create_ata_idempotent sdk payer to mint (associated_token_address sdk to mint);
        both = sym p;
        creates = create_ata_idempotent-CreatesAccount sdk payer to mint;
        by_program = unfold token_transfer_checked program in refl;
        accounts = unfold token_transfer_checked associated_token_address program in refl;
        payload =
            subst
              (λ n.
                IsTransferChecked
                  (token_transfer_checked sdk (associated_token_address sdk from mint) mint
                    (associated_token_address sdk to mint) from units decimals).payload
                  n decimals)
              same
              (token_transfer_checked-IsTransferChecked sdk (associated_token_address sdk from mint)
                mint (associated_token_address sdk to mint) from units decimals (omega arith) d);
      }

  pub transfer_instructions-IsTransfer :
      (payer from to : Pubkey) (amount : ℕ) (mint : Option Text) (w w' : World)
      (is : List Instruction)
      → transfer_instructions host sdk json net base64 self payer from to amount mint w
        ≡ (ok is, w')
      → IsTransfer sdk payer from to amount mint is
  unfolding transfer_instructions
  transfer_instructions-IsTransfer payer from to amount none w w' is e =
      transfer-IsNative sdk from to amount (system_transfer sdk from to amount) is refl
        (lift-eq-ok _ is w w' e).0
  transfer_instructions-IsTransfer payer from to amount (some m) w w' is e =
      on_success _ _ w is w' e λ mint u named rest. on_success _ _ u is w' rest λ units v fits rest.
        on_success _ _ v is w' rest λ decimals x read rest.
          transfer-IsToken payer from to amount units decimals m mint is
            (lift-ok_or _ _ mint w u named).0 (lift-ok_or _ _ units u v fits).0
            (mint_decimals-IsByte mint v x decimals read) (pure-eq-ok _ is x w' rest).0
