-- ===== src/Chain/Adapter/Laws.antt =====
-- What the handlers rely on of an adapter: it does not touch the tables, and only `broadcast` sends
-- a transaction.
use xend.Common.{Option, suc, ok, ◌≡◌, refl, ◌∙◌}
use xend.Common.Text.{Text}
use xend.Common.Bytes.{Bytes}
use xend.Runtime.{World}
use xend.Runtime.Moves.{Moves, IsPreorder, IgnoresStep}
use xend.Runtime.Sends.{SendsAtMost, SameSends, sends}
use xend.Chain.Adapter.{ChainAdapter, TransferIntent}

-- The tables stay.
abbrev pub SameDb : World → World → Type 0
SameDb u v = v.db ≡ u.db

pub SameDb-IsPreorder : IsPreorder SameDb
SameDb-IsPreorder = record { reflexive = λ w. refl; transitive = λ u v w p q. q ∙ p }

pub SameDb-IgnoresStep : IgnoresStep SameDb
SameDb-IgnoresStep = record { ticks = λ w. refl }

pub record LeavesTables (chain : ChainAdapter) : Type 0 where
  pub build_transfer : (intent : TransferIntent) → Moves SameDb (chain.build_transfer intent)
  pub resolve_name : (name : Text) → Moves SameDb (chain.resolve_name name)
  pub validate_signed : (signed : Bytes) → Moves SameDb (chain.validate_signed signed)
  pub broadcast : (signed : Bytes) → Moves SameDb (chain.broadcast signed)
  pub status : (signature : Text) → Moves SameDb (chain.status signature)
  pub balance : (address : Text) (mint : Option Text) → Moves SameDb (chain.balance address mint)

pub record SendsOnBroadcast (chain : ChainAdapter) : Type 0 where
  pub build_transfer : (intent : TransferIntent) → Moves SameSends (chain.build_transfer intent)
  pub resolve_name : (name : Text) → Moves SameSends (chain.resolve_name name)
  pub validate_signed : (signed : Bytes) → Moves SameSends (chain.validate_signed signed)
  pub broadcast : (signed : Bytes) → SendsAtMost 1 (chain.broadcast signed)
  pub delivered :
      (signed : Bytes) (w : World) (signature : Text) (v : World)
      → chain.broadcast signed w ≡ (ok signature, v)
      → sends v.sent ≡ suc (sends w.sent)
  pub status : (signature : Text) → Moves SameSends (chain.status signature)
  pub balance : (address : Text) (mint : Option Text) → Moves SameSends (chain.balance address mint)
