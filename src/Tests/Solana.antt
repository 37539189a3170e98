-- ===== src/Tests/Solana.antt =====
-- Runs of the Solana adapter on concrete requests.
use xend.Common.{
  ℕ, ◌+◌, ◌*◌, ◌^◌, ◌≡◌, ◌↔◌, refl, [], ◌∷◌, ◌++◌, none, some, true, false, ok, err, arith,
  replicate, length,
}
use xend.Common.Text.{Text, text, text_eq, strip_suffix, is_empty}
use xend.Common.Bytes.{Bytes, to_le_bytes}
use xend.Error.{bad_request, blockhash_expired}
use xend.Runtime.{World, advance, ◌>>=◌, pure, lift, system_time}
use xend.Chain.Adapter.{TransferIntent, UnsignedTx}
use xend.Chain.Adapter.{confirmed, finalized}
use xend.Chain.Solana.Rpc.{commitment_of}
use xend.Chain.Solana.Rpc.Status.{HasLevel, commitment_of_iff}
use xend.Chain.Adapter.Laws.{SendsOnBroadcast}
use xend.Chain.Solana.Sdk.{Instruction}
use xend.Chain.Solana.Instructions.{system_transfer, program}
use xend.Chain.Solana.Errors.{classify}
use xend.Chain.Solana.Errors.Classes.{SaysExpired, classify-expired_iff}
use xend.Chain.Solana.Rpc.{post, blockhash_of, decimals_of, owner_of, owner_bytes, result_value}
use xend.Chain.Solana.Rpc.Readings.{owner_of-eq-ok}
use xend.Chain.Solana.Methods.{
  payer_of, latest_blockhash, mint_decimals, transfer_instructions, build_transfer, sol_label,
  solana,
}
use xend.Chain.Solana.Methods.Build.{IsBuilt, build_transfer-IsBuilt, build_transfer_refuses}
use xend.Chain.Solana.Methods.Completes.{build_transfer_completes}
use xend.Chain.Solana.Methods.Names.{IsLabel, sol_label_iff}
use xend.Chain.Solana.Methods.Witness.{solana-SendsOnBroadcast}
use xend.Tests.{
  host, base64, sdk, json, network, adapter, start, Value, object, value, string, item,
  end_of_array,
}

abbrev intent : TransferIntent
intent = record { from = text "alice"; to = text "bob"; amount = 7; mint = some (text "usdc") }

abbrev built : World
built = (build_transfer host sdk json network base64 adapter intent start).1

abbrev unsigned : UnsignedTx
unsigned = record {
  message = text "paymasterhash";
  valid_until = 2 + 90 * 1000000;
  fee_payer_signature = some (text "paymasterpaymasterhash");
}

token_transfer :
    build_transfer host sdk json network base64 adapter intent start ≡ (ok unsigned, built)
unfolding build_transfer transfer_instructions mint_decimals latest_blockhash payer_of post
    decimals_of blockhash_of lift ◌>>=◌ pure system_time text text_eq
token_transfer = refl

build_transfer-IsBuilt_example : IsBuilt host sdk json network base64 adapter intent unsigned built
build_transfer-IsBuilt_example =
    build_transfer-IsBuilt host sdk json network base64 adapter intent start built unsigned
      token_transfer

abbrev too_much : TransferIntent
too_much = record { from = text "alice"; to = text "bob"; amount = 2 ^ 64; mint = none }

build_transfer_refuses_example :
    build_transfer host sdk json network base64 adapter too_much start
    ≡ (err (bad_request (text "amount exceeds the maximum for SOL")), start)
unfolding text
build_transfer_refuses_example =
    build_transfer_refuses host sdk json network base64 adapter too_much start
      (bad_request (text "amount exceeds the maximum for SOL")) refl

solana-SendsOnBroadcast_example : SendsOnBroadcast (solana host sdk json network base64 adapter)
solana-SendsOnBroadcast_example = solana-SendsOnBroadcast host sdk json network base64 adapter

abbrev transfer : Instruction
transfer = record {
  program_id = text "11111111111111111111111111111111";
  accounts =
      record { pubkey = text "alice"; is_signer = true; is_writable = true }
      ∷ record { pubkey = text "bob"; is_signer = false; is_writable = true }
      ∷ [];
  payload = 2 ∷ 0 ∷ 0 ∷ 0 ∷ 7 ∷ 1 ∷ 0 ∷ 0 ∷ 0 ∷ 0 ∷ 0 ∷ 0 ∷ [];
}

native_transfer : system_transfer sdk (text "alice") (text "bob") 263 ≡ ok transfer
unfolding system_transfer program to_le_bytes text
native_transfer = refl

classify-expired_iff_example :
    (classify (text "Blockhash not found") ≡ blockhash_expired)
    ↔ SaysExpired (text "Blockhash not found")
classify-expired_iff_example = classify-expired_iff (text "Blockhash not found")

sol_label_iff_example :
    (sol_label (text "gift.sol") ≡ some (text "gift"))
    ↔ ((text "gift.sol" ≡ text "gift" ++ text ".sol") × IsLabel (text "gift"))
sol_label_iff_example = sol_label_iff (text "gift.sol") (text "gift")

dotted : sol_label (text "a.b.sol") ≡ none
unfolding sol_label strip_suffix text text_eq
dotted = refl

abbrev account : Text → Value
account amount = object (text "account") (
    object (text "data") (
      object (text "parsed") (
        object (text "info")
          (object (text "tokenAmount") (object (text "amount") (string amount))))))

abbrev two_accounts : Value
two_accounts = value (item (account (text "30")) (item (account (text "12")) end_of_array))

abbrev record_text : Text
record_text = replicate 32 48 ++ (replicate 32 49 ++ text "rest")

abbrev name_account : Value
name_account = value (object (text "data") (item (string record_text) end_of_array))

name_owner : owner_of json base64 name_account ≡ ok (replicate 32 49)
unfolding owner_of owner_bytes text text_eq
name_owner = refl

owner_of-eq-ok_example :
    (encoded : Text) × (parent rest : Bytes) × (json.as_str
        (json.nth (json.index (result_value json name_account) (text "data")) 0)
      ≡ some encoded)
    × (base64.decode encoded ≡ some (parent ++ (replicate 32 49 ++ rest)))
    × (length parent ≡ 32)
    × (length {A = ℕ} (replicate 32 49) ≡ 32)
owner_of-eq-ok_example = owner_of-eq-ok json base64 name_account (replicate 32 49) name_owner

abbrev final_status : Value
final_status =
    value (item (object (text "confirmationStatus") (string (text "finalized"))) end_of_array)

commitment_of_iff_example :
    ((commitment_of json final_status ≡ finalized) ↔ HasLevel json final_status (text "finalized"))
    × ((commitment_of json final_status ≡ confirmed)
        ↔ HasLevel json final_status (text "confirmed"))
commitment_of_iff_example = commitment_of_iff json final_status

abbrev decimals_read : World
decimals_read = (mint_decimals host sdk json network base64 adapter (text "usdc") start).1

abbrev blockhash_read : World
blockhash_read = (latest_blockhash host sdk json network base64 adapter decimals_read).1

usdc_decimals :
    mint_decimals host sdk json network base64 adapter (text "usdc") start ≡ (ok 6, decimals_read)
unfolding mint_decimals post decimals_of lift ◌>>=◌ text text_eq
usdc_decimals = refl

recent :
    latest_blockhash host sdk json network base64 adapter decimals_read
    ≡ (ok (text "hash"), blockhash_read)
unfolding latest_blockhash mint_decimals post decimals_of blockhash_of lift ◌>>=◌ text text_eq
recent = refl

a_key : (t : Text) → is_empty t ≡ false → sdk.pubkey_from_str t ≡ some t
a_key t h = rw h refl

build_transfer_completes_example :
    (tx : UnsignedTx) × (build_transfer host sdk json network base64 adapter intent start
      ≡ (ok tx, advance blockhash_read))
build_transfer_completes_example =
    build_transfer_completes host sdk json network base64 adapter intent (text "alice") (text "bob")
      (text "hash") start decimals_read blockhash_read (a_key (text "alice") (unfold text in refl))
      (a_key (text "bob") (unfold text in refl)) (omega arith)
      (text "usdc", 6, a_key (text "usdc") (unfold text in refl), usdc_decimals) recent
