-- ===== src/App/Server/Statements.antt =====
-- A relation that holds along each statement of the store, and where the tables stay, holds along
-- each await of each handler.
use mathlib.Core.Path.{subst}
use xend.Common.{ℕ, ◌≡◌, refl, sym, inl, inr, ok}
use xend.Common.Text.{Text}
use xend.Runtime.{World, Host, M, run_sql}
use xend.Runtime.Moves.{Moves, IgnoresStep, Moves-new_uuid, Moves-run_sql}
use xend.Runtime.Program.Awaits.{EachMoves}
use xend.Runtime.Program.Maps.{map-EachMoves}
use xend.Store.{Db, Statement}
use xend.Store.Steps.{Step, registers, looks_up_wallet, looks_up, claims, marks, lists}
use xend.Store.Wallets.{find_id_by_pubkey}
use xend.Store.Transactions.{find_by_idempotency, mark_submitted, list_for_wallet}
use xend.Chain.Adapter.{ChainAdapter}
use xend.Chain.Adapter.Laws.{LeavesTables, SameDb}
use xend.Handlers.Tx.{SubmitRequest}
use xend.Handlers.Tx.Awaits.Rules.{SubmitRules, submit-EachMoves}
use xend.Handlers.Requests.{Request, submits, Codecs}
use xend.Handlers.Requests.Awaits.{respond_program}
use xend.Handlers.Requests.Awaits.Rules.{OtherRules, submission-cases, other-EachMoves}
use xend.App.Server.{handler_program}

module _ (host : Host) (codecs : Codecs) (chain : ChainAdapter) (law : LeavesTables chain)
    (R : World → World → Type 0) (quiet : (u v : World) → v.db ≡ u.db → R u v)
    (steps : (u v : World) → Step u.db v.db → R u v) where
  ignores_step : IgnoresStep R
  ignores_step = record { ticks = λ w. quiet w _ refl }

  statement-Moves :
      {A : Type 0} (st : Statement A)
      → ((now : ℕ) (a b : Db) (r : A) → st now a ≡ ok (r, b) → Step a b)
      → Moves R (run_sql host st)
  statement-Moves st h =
      Moves-run_sql ignores_step host st
        (record { along = λ now w a db e. steps w _ (h now w.db db a e) })

  adapter-Moves : {A : Type 0} (m : M A) → Moves SameDb m → Moves R m
  adapter-Moves m h = record { at = λ w. quiet w _ (h.at w) }

  find_id-Moves : (pubkey : Text) → Moves R (find_id_by_pubkey host pubkey)
  unfolding find_id_by_pubkey
  find_id-Moves pubkey = statement-Moves _ (λ now a b r e. looks_up_wallet pubkey now r e)

  submit_rules : (key : Text) → SubmitRules host chain R key
  unfolding find_by_idempotency mark_submitted
  submit_rules key = record {
    uuid = Moves-new_uuid ignores_step host;
    sender = find_id-Moves;
    lookup = statement-Moves _ (λ now a b r e. looks_up key now r e);
    claim = λ id c. statement-Moves _ (λ now a b r e. claims id c now e);
    mark = λ signature. statement-Moves _ (λ now a b r e. marks key signature now e);
    validate_signed = λ signed. adapter-Moves _ (law.validate_signed signed);
    broadcast = λ signed. adapter-Moves _ (law.broadcast signed);
  }

  other_rules : OtherRules host chain R
  unfolding list_for_wallet
  other_rules = record {
    uuid = Moves-new_uuid ignores_step host;
    upsert =
        λ id pubkey label. statement-Moves _ (λ now a b r e. registers id pubkey label now r e);
    reads = record {
      find_id = find_id-Moves;
      list = λ wallet limit before.
          statement-Moves _ (λ now a b r e. lists wallet limit before now r e);
      build_transfer = λ intent. adapter-Moves _ (law.build_transfer intent);
      resolve_name = λ name. adapter-Moves _ (law.resolve_name name);
      status = λ signature. adapter-Moves _ (law.status signature);
      balance = λ address mint. adapter-Moves _ (law.balance address mint);
    };
  }

  submits-EachMoves :
      (req : SubmitRequest) → EachMoves R (respond_program host codecs chain (submits req))
  unfolding respond_program
  submits-EachMoves req =
      map-EachMoves _ R _
        (submit-EachMoves host codecs.base64 chain R req (submit_rules req.idempotency_key))

  pub handler-EachMoves : (r : Request) → EachMoves R (handler_program host codecs chain r)
  unfolding handler_program
  handler-EachMoves r = map-EachMoves _ R _ (elim (submission-cases r) [
    | inl (req, e) ↦
        subst (λ x. EachMoves R (respond_program host codecs chain x)) (sym e)
          (submits-EachMoves req)
    | inr other ↦ other-EachMoves host codecs chain R other_rules r other
  ])
