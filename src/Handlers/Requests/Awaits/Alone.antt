-- ===== src/Handlers/Requests/Awaits/Alone.antt =====
-- Run alone, the program of a request is its handler.
use xend.Common.{ℕ, refl, sym, ◌∙◌, Option, none, some, Result, ok, err}
use xend.Common.Text.{Text}
use xend.Error.{AppError}
use xend.Runtime.{Host, M, pure, lift, ◌>>=◌}
use xend.Runtime.Agrees.{Agrees, bind-Agrees, bind_assoc, lift_bind, lift_fails}
use xend.Runtime.Program.{Program, await, run, map_program, checked_then}
use xend.Runtime.Program.Maps.{run-map_program}
use xend.Store.Wallets.{upsert, find_id_by_pubkey}
use xend.Chain.Adapter.{ChainAdapter}
use xend.Handlers.Tx.{BuildRequest, build, status}
use xend.Handlers.Tx.Awaits.Alone.{run-submit_program}
use xend.Handlers.Wallet.{
  RegisterWalletRequest, HistoryQuery, register, balance, history, records_of, resolve, limit_of,
}
use xend.Handlers.Requests.{
  Request, registers, asks_balance, asks_history, builds, submits, asks_status, resolves, Codecs,
  respond,
}
use xend.Handlers.Requests.Awaits.{
  build_program, status_program, register_program, balance_program, records_program,
  history_program, resolve_program, respond_program,
}

checked-Agrees :
    {A B : Type 0} (r : Result A AppError) (k : A → Program B) (f : A → M B)
    → ((a : A) → Agrees (run (k a)) (f a))
    → Agrees (run (checked_then r k)) (lift r >>= f)
unfolding run checked_then
checked-Agrees (ok a) k f h w = h a w ∙ sym (lift_bind a f w)
checked-Agrees (err e) k f h w = sym (lift_fails e f w)

map-Agrees :
    {A B : Type 0} (f : A → B) (p : Program A) (m : M A)
    → Agrees (run p) m
    → Agrees (run (map_program f p)) (m >>= λ a. pure (f a))
unfolding ◌>>=◌
map-Agrees f p m h w = run-map_program f p w ∙ rw (h w) refl

module _ (host : Host) (codecs : Codecs) (chain : ChainAdapter) where
  build-Agrees :
      (req : BuildRequest)
      → Agrees (run (build_program host codecs chain req)) (build host codecs.base64 chain req)
  unfolding build_program build
  build-Agrees req = checked-Agrees _ _ _ (λ amount w. unfold run in refl)

  status-Agrees :
      (signature : Text)
      → Agrees
          (run (status_program host codecs chain signature))
          (status host codecs.base64 chain signature)
  unfolding status_program status run
  status-Agrees signature w = refl

  register-Agrees :
      (req : RegisterWalletRequest)
      → Agrees
          (run (register_program host codecs chain req))
          (register host codecs.base58 chain req)
  unfolding register_program register upsert
  register-Agrees req = checked-Agrees _ _ _ (λ u w. unfold run in sym (bind_assoc _ _ _ w))

  balance-Agrees :
      (pubkey : Text) (mint : Option Text)
      → Agrees
          (run (balance_program host codecs chain pubkey mint))
          (balance host codecs.base58 chain pubkey mint)
  unfolding balance_program balance
  balance-Agrees pubkey mint = checked-Agrees _ _ _ (λ u w. unfold run in refl)

  records-Agrees :
      (o : Option ℕ) (limit : ℕ) (before : Option ℕ)
      → Agrees
          (run (records_program host codecs chain o limit before))
          (records_of host codecs.base58 chain o limit before)
  unfolding records_program records_of run
  records-Agrees none limit before w = refl
  records-Agrees (some id) limit before w = refl

  found_Agrees :
      (pubkey : Text) (limit : ℕ) (before : Option ℕ)
      → Agrees
          (run (
            await
              (find_id_by_pubkey host pubkey)
              λ found. records_program host codecs chain found limit before))
          (find_id_by_pubkey host pubkey >>= λ found.
            records_of host codecs.base58 chain found limit before)
  unfolding run
  found_Agrees pubkey limit before = bind-Agrees _ _ _ (λ found. records-Agrees found limit before)

  history-Agrees :
      (pubkey : Text) (query : HistoryQuery)
      → Agrees
          (run (history_program host codecs chain pubkey query))
          (history host codecs.base58 chain codecs.rfc3339 pubkey query)
  unfolding history_program history
  history-Agrees pubkey query =
      checked-Agrees _ _ _
        λ u. checked-Agrees _ _ _ λ before w. found_Agrees pubkey (limit_of query.limit) before w

  resolve-Agrees :
      (name : Text)
      → Agrees
          (run (resolve_program host codecs chain name))
          (resolve host codecs.base58 chain name)
  unfolding resolve_program resolve run
  resolve-Agrees name w = refl

  pub run-respond_program :
      (r : Request)
      → Agrees (run (respond_program host codecs chain r)) (respond host codecs chain r)
  unfolding respond_program respond
  run-respond_program (registers req) = map-Agrees _ _ _ (register-Agrees req)
  run-respond_program (asks_balance pubkey mint) = map-Agrees _ _ _ (balance-Agrees pubkey mint)
  run-respond_program (asks_history pubkey query) = map-Agrees _ _ _ (history-Agrees pubkey query)
  run-respond_program (builds req) = map-Agrees _ _ _ (build-Agrees req)
  run-respond_program (submits req) =
      map-Agrees _ _ _ (run-submit_program host codecs.base64 chain req)
  run-respond_program (asks_status signature) = map-Agrees _ _ _ (status-Agrees signature)
  run-respond_program (resolves name) = map-Agrees _ _ _ (resolve-Agrees name)
