-- ===== src/Tests/Client.antt =====
-- A run of the client on the answer of `build`.
use Prim.Native.Nat.{zero}
use xend.Common.{ℕ, suc, refl, some, replicate, All, arith}
use xend.Common.Text.{text}
use xend.Common.Bytes.{Bytes, IsByte}
use xend.Crates.{Base64, DecodesEncoded}
use xend.Handlers.Tx.{BuildResponse}
use xend.Client.{Signer}
use xend.Client.Wire.{IsSignature}

abbrev plain : Base64
plain = record { encode = λ b. b; decode = λ t. some t }

plain-DecodesEncoded : DecodesEncoded plain
plain-DecodesEncoded b h = refl

ones_are_bytes : (n : ℕ) → All IsByte (replicate n 1)
ones_are_bytes zero = tt
ones_are_bytes (suc n) = (omega arith, ones_are_bytes n)

abbrev ones : Bytes
ones = replicate 64 1

ones-IsSignature : IsSignature ones
ones-IsSignature = (refl, ones_are_bytes 64)

abbrev alice : Signer
alice = record { address = text "alice"; sign_message = λ m. ones; display = λ s. text "sig" }

abbrev answer : BuildResponse
answer = record { message = replicate 3 1; valid_until = 90; fee_payer_signature = some ones }
