-- ===== src/Startup/Paymaster.antt =====
-- The paymaster from the key generator to a built transfer.
use mathlib.Core.Option
use xend.Common.{◌≡◌, refl, ap, ◌∙◌, ◌++◌, List, Option, none, some, ok, [], ◌∷◌}
use xend.Common.Text.{Text, text, trim, strip_prefix}
use xend.Crates.{Base64}
use xend.Runtime.{Host, World}
use xend.Chain.Adapter.{TransferIntent, UnsignedTx}
use xend.Chain.Solana.Sdk.{Sdk, Instruction}
use xend.Chain.Solana.Json.{Json, Network}
use xend.Chain.Solana.Methods.{build_transfer, payer_of}
use xend.Chain.Solana.Methods.Build.{build_transfer-IsBuilt}
use xend.Startup.{Environment, Keypairs, fee_payer, settings, settings_with, keygen_lines}

-- `from_base58_string` reads what `to_base58_string` wrote, which has no blanks around it.
pub record ReadsBack (sdk : Sdk) (keypairs : Keypairs sdk) : Type 0 where
  pub round_trip :
      (k : sdk.Keypair) → keypairs.from_base58_string (keypairs.to_base58_string k) ≡ some k
  pub no_blanks :
      (k : sdk.Keypair) → trim (keypairs.to_base58_string k) ≡ keypairs.to_base58_string k

-- The value of a variable in lines `NAME=value`.
abbrev pub variable_in : Text → List Text → Option Text
variable_in name [] = none
variable_in name (l ∷ lines) = elim (strip_prefix (name ++ text "=") l) [
  | some value ↦ some value
  | none ↦ variable_in name lines
]

module _ (host : Host) (sdk : Sdk) (json : Json) (net : Network json) (base64 : Base64)
    (keypairs : Keypairs sdk) (reads : ReadsBack sdk keypairs) where
  variable_in-keygen_lines :
      (k : sdk.Keypair)
      → variable_in (text "XEND_PAYMASTER_SECRET") (keygen_lines sdk keypairs k)
        ≡ some (keypairs.to_base58_string k)
  unfolding keygen_lines text strip_prefix
  variable_in-keygen_lines k = refl

  fee_payer-reads :
      (k : sdk.Keypair)
      → fee_payer sdk keypairs (some (keypairs.to_base58_string k)) ≡ some (some k)
  unfolding fee_payer
  fee_payer-reads k =
      ap (λ t. Option.map some (keypairs.from_base58_string t)) (reads.no_blanks k)
      ∙ ap (Option.map some) (reads.round_trip k)

  -- A process whose variable `XEND_PAYMASTER_SECRET` has the value that the key generator printed for
  -- a keypair starts with that keypair as its paymaster: every transfer that its adapter builds is a
  -- message that the keypair's address pays for, and carries the keypair's signature of the message.
  -- The keypair's text reads back, and has no blanks at its ends.
  pub keygen-settings :
      (k : sdk.Keypair) (env : Environment) (intent : TransferIntent) (w w' : World)
      (tx : UnsignedTx)
      → env.var (text "XEND_PAYMASTER_SECRET")
        ≡ variable_in (text "XEND_PAYMASTER_SECRET") (keygen_lines sdk keypairs k)
      → build_transfer host sdk json net base64 (settings_with sdk env (some k)).adapter intent w
        ≡ (ok tx, w')
      → (settings sdk keypairs env ≡ some (settings_with sdk env (some k)))
        × (tx.fee_payer_signature ≡ some (sdk.sign_message k tx.message))
        × ((instructions : List Instruction) × (blockhash : sdk.Hash) × (tx.message
              ≡ sdk.message instructions (sdk.pubkey k) blockhash))
  unfolding settings payer_of
  keygen-settings k env intent w w' tx h e =
      let b = build_transfer-IsBuilt host sdk json net base64 _ intent w w' tx e in
      (
        ap (λ o. Option.map (settings_with sdk env) (fee_payer sdk keypairs o))
              (h ∙ variable_in-keygen_lines k)
            ∙ ap (Option.map (settings_with sdk env)) (fee_payer-reads k),
        b.sponsored,
        (b.instructions, b.blockhash, b.message),
      )
