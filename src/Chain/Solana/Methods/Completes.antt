-- ===== src/Chain/Solana/Methods/Completes.antt =====
-- When `build_transfer` returns a transaction.
use xend.Common.{
  ℕ, ◌^◌, ◌<◌, ◌≡◌, refl, List, [], ◌∷◌, ◌++◌, true, false, Option, none, some, ok, ok_or, arith,
}
use xend.Common.Text.{Text}
use xend.Common.Bytes.{to_le_bytes}
use xend.Crates.{Base64}
use xend.Error.{AppError}
use xend.Runtime.{Host, World, advance, lift, system_time}
use xend.Runtime.Success.{bind_returns, pure_returns}
use xend.Chain.Adapter.{TransferIntent, UnsignedTx}
use xend.Chain.Solana.Sdk.{Sdk, Pubkey, Instruction, writable}
use xend.Chain.Solana.Json.{Json, Network}
use xend.Chain.Solana.Instructions.{system_transfer, try_u64, program, system_program_id}
use xend.Chain.Solana.Methods.{
  SolanaAdapter, payer_of, latest_blockhash, mint_decimals, transfer_instructions, build_transfer,
}

lift-some :
    {A : Type 0} (o : Option A) (x : AppError) (a : A) (w : World)
    → o ≡ some a
    → lift (ok_or o x) w ≡ (ok a, w)
unfolding lift
lift-some o x a w h = rw h refl

fits : (n : ℕ) → n < 2 ^ 64 → try_u64 n ≡ some n
fits n h = ground arith

module _ (host : Host) (sdk : Sdk) (json : Json) (net : Network json) (base64 : Base64)
    (self : SolanaAdapter sdk) where
  reads_time : (w : World) → system_time host w ≡ (ok (host.now w.step), advance w)
  unfolding system_time
  reads_time w = refl

  -- What a transfer reads of its mint, from one world to the next: nothing for SOL.
  abbrev pub ReadsMint : Option Text → World → World → Type 0
  ReadsMint none w u = w ≡ u
  ReadsMint (some mint) w u =
      (key : Pubkey) × (decimals : ℕ) × (sdk.pubkey_from_str mint ≡ some key)
      × (mint_decimals host sdk json net base64 self key w ≡ (ok decimals, u))

  transfer_instructions_complete :
      (payer from to : Pubkey) (amount : ℕ) (mint : Option Text) (w u : World)
      → amount < 2 ^ 64
      → ReadsMint mint w u
      → (is : List Instruction) × (transfer_instructions host sdk json net base64 self payer from to
            amount mint w
          ≡ (ok is, u))
  unfolding transfer_instructions system_transfer lift
  transfer_instructions_complete payer from to amount none w u small same = (
    record {
      program_id = program sdk system_program_id;
      accounts = writable from true ∷ writable to false ∷ [];
      payload = to_le_bytes 4 2 ++ to_le_bytes 8 amount;
    }
        ∷ [],
    rw (fits amount small, same) refl,
  )
  transfer_instructions_complete payer from to amount (some m) w u small
        (key, decimals, known, read) =
      bind_returns _ _ w (lift-some _ _ key w known) (
        bind_returns _ _ w (lift-some (try_u64 amount) _ amount w (fits amount small))
          (bind_returns _ _ w read (pure_returns _ u)))

  -- A transfer between two addresses, of an amount below 2^64, is built whenever the network answers:
  -- with the decimals of the mint, for a token, and with a recent blockhash.
  pub build_transfer_completes :
      (intent : TransferIntent) (from to : Pubkey) (blockhash : sdk.Hash) (w u v : World)
      → sdk.pubkey_from_str intent.from ≡ some from
      → sdk.pubkey_from_str intent.to ≡ some to
      → intent.amount < 2 ^ 64
      → ReadsMint intent.mint w u
      → latest_blockhash host sdk json net base64 self u ≡ (ok blockhash, v)
      → (tx : UnsignedTx) × (build_transfer host sdk json net base64 self intent w
          ≡ (ok tx, advance v))
  unfolding build_transfer
  build_transfer_completes intent from to blockhash w u v sender recipient small mint recent =
      let (is, made) =
        transfer_instructions_complete (payer_of sdk self.fee_payer from) from to intent.amount
          intent.mint w u small mint in
      bind_returns _ _ w (lift-some _ _ from w sender) (
        bind_returns _ _ w (lift-some _ _ to w recipient) (
          bind_returns _ _ w made (
            bind_returns _ _ u recent
              (bind_returns _ _ v (reads_time v) (pure_returns _ (advance v))))))
