-- ===== src/Chain/Solana/Instructions/Layout.antt =====
-- The byte layouts that the programs on the chain parse by position.
use mathlib.Core.Path.{subst}
use xend.Common.{
  ℕ, ◌<◌, ◌^◌, ◌≡◌, refl, sym, [], ◌∷◌, ◌++◌, ok, arith, length, take, drop, Bool-cases, inl, inr,
  ltb, All, All-append,
}
use xend.Common.Bytes.{
  Bytes, IsByte, to_le_bytes, from_le_bytes, from_le_bytes-to_le_bytes, to_le_bytes-IsByte,
}
use xend.Chain.Solana.Sdk.{Sdk, Pubkey, Instruction}
use xend.Chain.Solana.Instructions.{system_transfer, token_transfer_checked}

-- An eight-byte field in front of a rest.
le_field :
    (n : ℕ) (rest : Bytes) → n < 2 ^ 64 → from_le_bytes (take 8 (to_le_bytes 8 n ++ rest)) ≡ n
unfolding to_le_bytes
le_field n rest h = from_le_bytes-to_le_bytes 8 n h

-- What a reader of a native transfer finds: a discriminant of four bytes and an amount of eight.
pub record IsSystemTransfer (payload : Bytes) (amount : ℕ) : Type 0 where
  pub size : length payload ≡ 12
  pub discriminant : from_le_bytes (take 4 payload) ≡ 2
  pub lamports : from_le_bytes (drop 4 payload) ≡ amount

transfer_payload :
    (amount : ℕ)
    → amount < 2 ^ 64
    → IsSystemTransfer (to_le_bytes 4 2 ++ to_le_bytes 8 amount) amount
unfolding to_le_bytes
transfer_payload amount h = record {
  size = refl;
  discriminant = from_le_bytes-to_le_bytes 4 2 (omega arith);
  lamports = from_le_bytes-to_le_bytes 8 amount h;
}

-- A native transfer is built only for an amount below 2^64, and its payload then reads back as the
-- discriminant 2 and that amount, so no amount is cut off.
pub system_transfer-IsSystemTransfer :
    (sdk : Sdk) (from to : Pubkey) (amount : ℕ) (i : Instruction)
    → system_transfer sdk from to amount ≡ ok i
    → (amount < 2 ^ 64) × IsSystemTransfer i.payload amount
unfolding system_transfer
system_transfer-IsSystemTransfer sdk from to amount i e = elim (Bool-cases (ltb amount (2 ^ 64))) [
  | inl fits ↦
      let h : amount < 2 ^ 64 = ground arith in
      let p : i.payload ≡ to_le_bytes 4 2 ++ to_le_bytes 8 amount = ground arith in
      (h, subst (λ payload. IsSystemTransfer payload amount) (sym p) (transfer_payload amount h))
  | inr wide ↦ absurd (ground arith)
]

pub record IsTransferChecked (payload : Bytes) (amount decimals : ℕ) : Type 0 where
  pub size : length payload ≡ 10
  pub bytes : All IsByte payload
  pub discriminant : take 1 payload ≡ 12 ∷ []
  pub units : from_le_bytes (take 8 (drop 1 payload)) ≡ amount
  pub scale : drop 9 payload ≡ decimals ∷ []

-- A checked token transfer is ten bytes that read back as 12, the amount and the decimals, for an
-- amount below 2^64 and decimals below 256.
pub token_transfer_checked-IsTransferChecked :
    (sdk : Sdk) (source mint destination owner : Pubkey) (amount decimals : ℕ)
    → amount < 2 ^ 64
    → decimals < 256
    → IsTransferChecked
        (token_transfer_checked sdk source mint destination owner amount decimals).payload
        amount
        decimals
unfolding token_transfer_checked to_le_bytes
token_transfer_checked-IsTransferChecked sdk source mint destination owner amount decimals h k =
    record {
      size = refl;
      bytes = (
        omega arith,
        All-append IsByte (to_le_bytes 8 amount) (decimals ∷ []) (to_le_bytes-IsByte 8 amount)
            (k, tt),
      );
      discriminant = refl;
      units = le_field amount (decimals ∷ []) h;
      scale = refl;
    }
