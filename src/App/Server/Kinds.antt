-- ===== src/App/Server/Kinds.antt =====
-- Each answer of a server fits the request that it answers.
use xend.Common.{ℕ, ◌≡◌, ◌≤◌, some, ok, length}
use xend.Common.Decimal.{parse_u128}
use xend.Common.Text.{Text, text}
use xend.Common.Bytes.{Bytes}
use xend.Runtime.{World}
use xend.Runtime.Program.{Program}
use xend.Runtime.Program.Shared.{Safe}
use xend.Handlers.Wallet.{validate_solana_pubkey, limit_of}
use xend.Handlers.Requests.{
  Request, Response, registers, asks_balance, asks_history, builds, submits, asks_status, resolves,
  registered, has_balance, has_history, built, submitted, has_status, resolved, Codecs,
}
use xend.App.{Route, liveness, versioned, Answer, alive, responds}

-- The response is of the request's kind and repeats what it asked for, and the request was well
-- formed.
abbrev pub Fits : Codecs → Request → Response → Type 0
Fits codecs (registers req) (registered r) =
    (r.pubkey ≡ req.pubkey) × (validate_solana_pubkey codecs.base58 req.pubkey ≡ ok tt)
Fits codecs (asks_balance pubkey mint) (has_balance r) =
    (r.mint ≡ mint) × (validate_solana_pubkey codecs.base58 pubkey ≡ ok tt)
Fits codecs (asks_history pubkey query) (has_history r) =
    (length r.transactions ≤ limit_of query.limit)
    × (validate_solana_pubkey codecs.base58 pubkey ≡ ok tt)
Fits codecs (builds req) (built r) = (amount : ℕ) × (parse_u128 req.amount ≡ some amount)
Fits codecs (submits req) (submitted r) =
    (signed : Bytes) × (codecs.base64.decode req.signed ≡ some signed)
Fits codecs (asks_status signature) (has_status r) = r.signature ≡ signature
Fits codecs (resolves name) (resolved r) = r.name ≡ name
Fits codecs request other = ⊥

abbrev pub FitsRoute : Codecs → Route → Answer → Type 0
FitsRoute codecs liveness (alive t) = t ≡ text "ok"
FitsRoute codecs (versioned request) (responds response) = Fits codecs request response
FitsRoute codecs route other = ⊥

abbrev Always : World → Type 0
Always w = Unit
