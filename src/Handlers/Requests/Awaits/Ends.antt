-- ===== src/Handlers/Requests/Awaits/Ends.antt =====
-- How many awaits a request has.
use xend.Common.{ℕ, Option, none, some, Result, ok, err}
use xend.Error.{AppError}
use xend.Runtime.{Host}
use xend.Runtime.Program.{Program, checked_then}
use xend.Runtime.Program.Maps.{map-EndsWithin}
use xend.Runtime.Program.Turns.{EndsWithin}
use xend.Chain.Adapter.{ChainAdapter}
use xend.Handlers.Tx.Awaits.Ends.{submit-EndsWithin}
use xend.Handlers.Requests.{
  Request, registers, asks_balance, asks_history, builds, submits, asks_status, resolves, Codecs,
}
use xend.Handlers.Requests.Awaits.{
  build_program, status_program, register_program, balance_program, records_program,
  history_program, resolve_program, respond_program,
}

checked-EndsWithin :
    {A B : Type 0} (n : ℕ) (r : Result A AppError) (k : A → Program B)
    → ((a : A) → EndsWithin (k a) n)
    → EndsWithin (checked_then r k) n
unfolding checked_then
checked-EndsWithin n (ok a) k h = h a
checked-EndsWithin n (err e) k h = tt

-- How many awaits a request has. The drawing of an id counts as one.
abbrev pub awaits_of : Request → ℕ
awaits_of (registers req) = 2
awaits_of (asks_balance pubkey mint) = 1
awaits_of (asks_history pubkey query) = 2
awaits_of (builds req) = 1
awaits_of (submits req) = 7
awaits_of (asks_status signature) = 1
awaits_of (resolves name) = 1

module _ (host : Host) (codecs : Codecs) (chain : ChainAdapter) where
  records-EndsWithin :
      (o : Option ℕ) (limit : ℕ) (before : Option ℕ)
      → EndsWithin (records_program host codecs chain o limit before) 1
  unfolding records_program
  records-EndsWithin none limit before = tt
  records-EndsWithin (some id) limit before = λ records. tt

  pub respond-EndsWithin :
      (r : Request) → EndsWithin (respond_program host codecs chain r) (awaits_of r)
  unfolding respond_program build_program status_program register_program balance_program
      history_program resolve_program
  respond-EndsWithin (registers req) =
      map-EndsWithin _ 2 _ (checked-EndsWithin 2 _ _ (λ u id wallet_id. tt))
  respond-EndsWithin (asks_balance pubkey mint) =
      map-EndsWithin _ 1 _ (checked-EndsWithin 1 _ _ (λ u amount. tt))
  respond-EndsWithin (asks_history pubkey query) = map-EndsWithin _ 2 _ (
      checked-EndsWithin 2 _ _
        λ u. checked-EndsWithin 2 _ _ λ before found. records-EndsWithin found _ before)
  respond-EndsWithin (builds req) =
      map-EndsWithin _ 1 _ (checked-EndsWithin 1 _ _ (λ amount unsigned. tt))
  respond-EndsWithin (submits req) =
      map-EndsWithin _ 7 _ (submit-EndsWithin host codecs.base64 chain req)
  respond-EndsWithin (asks_status signature) = map-EndsWithin _ 1 _ (λ commitment. tt)
  respond-EndsWithin (resolves name) = map-EndsWithin _ 1 _ (λ address. tt)
