-- ===== src/Tests/Paymaster.antt =====
-- A process whose environment has the line of the key generator, and the client that it serves.
use mathlib.Core.Option
use xend.Common.{
  [], ◌∷◌, ℕ, ◌+◌, ◌*◌, ◌≡◌, refl, List, none, some, ok, true, false, Bool, if◌then◌else◌,
  replicate,
}
use xend.Common.Text.{
  Text, text, text_eq, trim, trim_start, trim_end, is_whitespace, strip_prefix, strip_suffix,
}
use xend.Common.Bytes.{Bytes}
use xend.Crates.{Base64}
use xend.Runtime.{World, ◌>>=◌, pure, lift, system_time}
use xend.Chain.Adapter.{TransferIntent, UnsignedTx}
use xend.Chain.Solana.Sdk.{Sdk, Instruction}
use xend.Chain.Solana.Methods.{
  SolanaAdapter, build_transfer, latest_blockhash, payer_of, transfer_instructions,
}
use xend.Chain.Solana.Rpc.{post, blockhash_of}
use xend.Chain.Solana.Instructions.{system_transfer}
use xend.Startup.{Environment, Keypairs, settings, settings_with, keygen_lines}
use xend.Startup.Paymaster.{ReadsBack, variable_in, keygen-settings}
use xend.Handlers.Tx.{BuildResponse}
use xend.Handlers.Requests.{Codecs}
use xend.Client.{Signer}
use xend.Client.Session.{Args, is_name, run_client}
use xend.Client.Session.Spelling.{run_client_unresolved}
use xend.Client.Session.Transfers.{send}
use xend.Tests.{host, base58, rfc3339, base64, sdk, json, network, start}

-- Two keypairs; a signature repeats a byte.
abbrev byte_of : Bool → ℕ
byte_of true = 1
byte_of false = 2

abbrev name_of : Bool → Text
name_of true = text "k1"
name_of false = text "k2"

abbrev pub signing : Sdk
signing = record sdk {
  Keypair = Bool;
  pubkey = name_of;
  sign_message = λ k m. replicate 64 (byte_of k);
  message = λ is payer hash. replicate 3 7;
}

abbrev pub keypairs : Keypairs signing
keypairs = record {
  from_base58_string = λ t.
      if text_eq t (text "k1")
      then some true
      else (if text_eq t (text "k2") then some false else none);
  to_base58_string = name_of;
}

no_blanks : (k : Bool) → trim (name_of k) ≡ name_of k
unfolding text trim trim_start trim_end is_whitespace
no_blanks true = refl
no_blanks false = refl

reads : (k : Bool) → keypairs.from_base58_string (name_of k) ≡ some k
unfolding text text_eq
reads true = refl
reads false = refl

keypairs-ReadsBack : ReadsBack signing keypairs
keypairs-ReadsBack = record { round_trip = reads; no_blanks = no_blanks }

-- The value of the second line.
abbrev pub env : Environment
env = record {
  var = λ name. if text_eq name (text "XEND_PAYMASTER_SECRET") then some (text "k1") else none;
}

printed :
    env.var (text "XEND_PAYMASTER_SECRET")
    ≡ variable_in (text "XEND_PAYMASTER_SECRET") (keygen_lines signing keypairs true)
unfolding text text_eq keygen_lines strip_prefix
printed = refl

abbrev pub paid : SolanaAdapter signing
paid = (settings_with signing env (some true)).adapter

abbrev intent : TransferIntent
intent = record { from = text "alice"; to = text "bob"; amount = 7; mint = none }

abbrev built : World
built = (build_transfer host signing json network base64 paid intent start).1

abbrev pub unsigned : UnsignedTx
unsigned = record {
  message = replicate 3 7;
  valid_until = 1 + 90 * 1000000;
  fee_payer_signature = some (replicate 64 1);
}

transfer : build_transfer host signing json network base64 paid intent start ≡ (ok unsigned, built)
unfolding build_transfer transfer_instructions latest_blockhash payer_of post system_transfer
    blockhash_of lift ◌>>=◌ pure system_time text text_eq
transfer = refl

keygen-settings_example :
    (settings signing keypairs env ≡ some (settings_with signing env (some true)))
    × (unsigned.fee_payer_signature ≡ some (signing.sign_message true unsigned.message))
    × ((instructions : List Instruction) × (blockhash : signing.Hash) × (unsigned.message
          ≡ signing.message instructions (signing.pubkey true) blockhash))
keygen-settings_example =
    keygen-settings host signing json network base64 keypairs keypairs-ReadsBack true env intent
      start built unsigned printed transfer

abbrev plain : Base64
plain = record { encode = λ b. b; decode = λ t. some t }

abbrev codecs : Codecs
codecs = record { base64 = plain; base58 = base58; rfc3339 = rfc3339 }

abbrev alice : Signer
alice = record {
  address = text "alice";
  sign_message = λ m. replicate 64 3;
  display = λ s. text "sig";
}

abbrev args : Args
args = record {
  base_url = text "http://localhost:8081";
  from = alice;
  to = text "bob";
  lamports = 7;
}

abbrev line : List Text
line =
    text "gasless_client"
    ∷ text "http://localhost:8081"
    ∷ text "secret"
    ∷ text "bob"
    ∷ text "7"
    ∷ []

abbrev answer : BuildResponse
answer = record {
  message = replicate 3 7;
  valid_until = 90;
  fee_payer_signature = some (replicate 64 1);
}

-- Written in capitals, the suffix is not the server's.
abbrev lower : Text → Text
lower t = text "gift.sol"

abbrev capitals : Args
capitals = record args { to = text "gift.SOL" }

named : is_name lower capitals.to ≡ true
unfolding text text_eq strip_suffix
named = refl

no_suffix : strip_suffix (text ".sol") capitals.to ≡ none
unfolding text text_eq strip_suffix
no_suffix = refl

run_client_unresolved_example :
    run_client plain lower (send host signing json network codecs paid) capitals start
    ≡ (none, start)
run_client_unresolved_example =
    run_client_unresolved host signing json network codecs paid lower capitals start named no_suffix
