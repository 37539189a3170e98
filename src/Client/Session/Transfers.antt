-- ===== src/Client/Session/Transfers.antt =====
-- The client against the backend: what it has signed and submits is the transfer that it was asked
-- for.
use mathlib.Core.Option
use xend.Common.{List, Option, none, some, All}
use xend.Common.Text.{Text}
use xend.Common.Bytes.{Bytes, IsByte}
use xend.Runtime.{Host, World}
use xend.Chain.Adapter.{TransferIntent}
use xend.Chain.Solana.Sdk.{Sdk, Pubkey, Instruction}
use xend.Chain.Solana.Json.{Json, Network}
use xend.Chain.Solana.Methods.{SolanaAdapter, solana}
use xend.Handlers.Requests.{Request, Codecs, respond}
use xend.Client.Wire.{IsSignature}
use xend.Client.Session.{Args, Reply}

-- Signatures have 64 bytes, and messages consist of bytes.
pub record SignsBytes (sdk : Sdk) : Type 0 where
  pub message_bytes :
      (is : List Instruction) (payer : Pubkey) (hash : sdk.Hash)
      → All IsByte (sdk.message is payer hash)
  pub signature_bytes : (k : sdk.Keypair) (m : Bytes) → IsSignature (sdk.sign_message k m)

abbrev pub intent_of : Args → TransferIntent
intent_of args = record {
  from = args.from.address;
  to = args.to;
  amount = args.lamports;
  mint = none;
}

module _ (host : Host) (sdk : Sdk) (json : Json) (net : Network json) (codecs : Codecs)
    (self : SolanaAdapter sdk) where
  -- The backend, reached by the client.
  abbrev pub send : Request → World → Option Reply × World
  send r w =
      let (reply, w') = respond host codecs (solana host sdk json net codecs.base64 self) r w in
      (some reply, w')
