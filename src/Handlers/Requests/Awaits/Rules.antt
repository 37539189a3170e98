-- ===== src/Handlers/Requests/Awaits/Rules.antt =====
-- A relation that holds along each await of a request.
use xend.Common.{ℕ, Option, none, some, Bool, true, false, ◌≡◌, refl, ◌⊎◌, inl, inr, arith}
use xend.Common.Text.{Text}
use xend.Runtime.{World, Host, new_uuid, run_sql}
use xend.Runtime.Moves.{Moves}
use xend.Runtime.Program.Awaits.{EachMoves, checked-EachMoves}
use xend.Runtime.Program.Maps.{map-EachMoves}
use xend.Store.Wallets.{find_id_by_pubkey, upsert_statement}
use xend.Store.Transactions.{list_for_wallet}
use xend.Chain.Adapter.{ChainAdapter, TransferIntent}
use xend.Handlers.Tx.{SubmitRequest}
use xend.Handlers.Wallet.{RegisterWalletRequest}
use xend.Handlers.Requests.{
  Request, registers, asks_balance, asks_history, builds, submits, asks_status, resolves, Codecs,
}
use xend.Handlers.Requests.Awaits.{
  build_program, status_program, register_program, balance_program, records_program,
  history_program, resolve_program, respond_program,
}

abbrev pub is_submission : Request → Bool
is_submission (submits req) = true
is_submission other = false

pub submission-cases :
    (r : Request) → ((req : SubmitRequest) × (r ≡ submits req)) ⊎ (is_submission r ≡ false)
submission-cases (submits req) = inl (req, refl)
submission-cases (registers req) = inr refl
submission-cases (asks_balance pubkey mint) = inr refl
submission-cases (asks_history pubkey query) = inr refl
submission-cases (builds req) = inr refl
submission-cases (asks_status signature) = inr refl
submission-cases (resolves name) = inr refl

-- A request that writes nothing in the tables.
abbrev pub is_read : Request → Bool
is_read (submits req) = false
is_read (registers req) = false
is_read other = true

pub record ReadRules (host : Host) (chain : ChainAdapter) (R : World → World → Type 0)
    : Type 0 where
  pub find_id : (pubkey : Text) → Moves R (find_id_by_pubkey host pubkey)
  pub list :
      (wallet limit : ℕ) (before : Option ℕ) → Moves R (list_for_wallet host wallet limit before)
  pub build_transfer : (intent : TransferIntent) → Moves R (chain.build_transfer intent)
  pub resolve_name : (name : Text) → Moves R (chain.resolve_name name)
  pub status : (signature : Text) → Moves R (chain.status signature)
  pub balance : (address : Text) (mint : Option Text) → Moves R (chain.balance address mint)

pub record OtherRules (host : Host) (chain : ChainAdapter) (R : World → World → Type 0)
    : Type 0 where
  pub reads : ReadRules host chain R
  pub uuid : Moves R (new_uuid host)
  pub upsert :
      (id : ℕ) (pubkey : Text) (label : Option Text)
      → Moves R (run_sql host (upsert_statement id pubkey label))

module _ (host : Host) (codecs : Codecs) (chain : ChainAdapter) (R : World → World → Type 0) where
  records-EachMoves :
      (rules : ReadRules host chain R) (o : Option ℕ) (limit : ℕ) (before : Option ℕ)
      → EachMoves R (records_program host codecs chain o limit before)
  unfolding records_program
  records-EachMoves rules none limit before = tt
  records-EachMoves rules (some id) limit before = (rules.list id limit before, λ records. tt)

  pub read-EachMoves :
      (rules : ReadRules host chain R) (r : Request)
      → is_read r ≡ true
      → EachMoves R (respond_program host codecs chain r)
  unfolding respond_program build_program status_program balance_program history_program
      resolve_program
  read-EachMoves rules (registers req) h = absurd (ground arith)
  read-EachMoves rules (submits req) h = absurd (ground arith)
  read-EachMoves rules (asks_balance pubkey mint) h =
      map-EachMoves _ R _ (checked-EachMoves R _ _ (λ u. (rules.balance pubkey mint, λ amount. tt)))
  read-EachMoves rules (asks_history pubkey query) h = map-EachMoves _ R _ (
      checked-EachMoves R _ _ λ u.
        checked-EachMoves R _ _
          λ before. (rules.find_id pubkey, λ found. records-EachMoves rules found _ before))
  read-EachMoves rules (builds req) h =
      map-EachMoves _ R _
        (checked-EachMoves R _ _ (λ amount. (rules.build_transfer _, λ unsigned. tt)))
  read-EachMoves rules (asks_status signature) h =
      map-EachMoves _ R _ (rules.status signature, λ commitment. tt)
  read-EachMoves rules (resolves name) h =
      map-EachMoves _ R _ (rules.resolve_name name, λ address. tt)

  registers-EachMoves :
      (rules : OtherRules host chain R) (req : RegisterWalletRequest)
      → EachMoves R (respond_program host codecs chain (registers req))
  unfolding respond_program register_program
  registers-EachMoves rules req = map-EachMoves _ R _ (
      checked-EachMoves R _ _
        (λ u. (rules.uuid, λ id. (rules.upsert id req.pubkey req.label, λ wallet_id. tt))))

  -- A request that is no submission.
  pub other-EachMoves :
      (rules : OtherRules host chain R) (r : Request)
      → is_submission r ≡ false
      → EachMoves R (respond_program host codecs chain r)
  other-EachMoves rules (registers req) h = registers-EachMoves rules req
  other-EachMoves rules (submits req) h = absurd (ground arith)
  other-EachMoves rules (asks_balance pubkey mint) h =
      read-EachMoves rules.reads (asks_balance pubkey mint) refl
  other-EachMoves rules (asks_history pubkey query) h =
      read-EachMoves rules.reads (asks_history pubkey query) refl
  other-EachMoves rules (builds req) h = read-EachMoves rules.reads (builds req) refl
  other-EachMoves rules (asks_status signature) h =
      read-EachMoves rules.reads (asks_status signature) refl
  other-EachMoves rules (resolves name) h = read-EachMoves rules.reads (resolves name) refl
