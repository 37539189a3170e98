-- ===== src/Handlers/Requests/Awaits/Spends.antt =====
-- How many transactions a request sends, whatever runs between its awaits.
use mathlib.Core.Path.{subst}
use xend.Common.{sym, inl, inr, if◌then◌else◌}
use xend.Runtime.{Host}
use xend.Runtime.Moves.{Moves-new_uuid}
use xend.Runtime.Sends.{SameSends, SameSends-IgnoresStep, SameSends-run_sql}
use xend.Runtime.Program.Awaits.{EachMoves-SpendsWithin}
use xend.Runtime.Program.Maps.{map-SpendsWithin}
use xend.Runtime.Program.Spends.{SpendsWithin}
use xend.Store.Wallets.{find_id_by_pubkey}
use xend.Store.Transactions.{list_for_wallet}
use xend.Chain.Adapter.{ChainAdapter}
use xend.Chain.Adapter.Laws.{SendsOnBroadcast}
use xend.Handlers.Tx.{SubmitRequest}
use xend.Handlers.Tx.Awaits.Spends.{submit-SpendsWithin}
use xend.Handlers.Requests.{Request, submits, Codecs}
use xend.Handlers.Requests.Awaits.{respond_program}
use xend.Handlers.Requests.Awaits.Rules.{
  OtherRules, is_submission, submission-cases, other-EachMoves,
}

module _ (host : Host) (codecs : Codecs) (chain : ChainAdapter) (law : SendsOnBroadcast chain) where
  quiet_rules : OtherRules host chain SameSends
  unfolding find_id_by_pubkey list_for_wallet
  quiet_rules = record {
    uuid = Moves-new_uuid SameSends-IgnoresStep host;
    upsert = λ id pubkey label. SameSends-run_sql host _;
    reads = record {
      find_id = λ pubkey. SameSends-run_sql host _;
      list = λ wallet limit before. SameSends-run_sql host _;
      build_transfer = law.build_transfer;
      resolve_name = law.resolve_name;
      status = law.status;
      balance = law.balance;
    };
  }

  submits-SpendsWithin :
      (req : SubmitRequest) → SpendsWithin (respond_program host codecs chain (submits req)) 1
  unfolding respond_program
  submits-SpendsWithin req =
      map-SpendsWithin _ 1 _ (submit-SpendsWithin host codecs.base64 chain law req)

  -- A submission sends one transaction at most, and another request none.
  pub respond-SpendsWithin :
      (r : Request)
      → SpendsWithin (respond_program host codecs chain r) (if is_submission r then 1 else 0)
  respond-SpendsWithin r = elim (submission-cases r) [
    | inl (req, e) ↦
        subst
          (λ x.
            SpendsWithin (respond_program host codecs chain x) (if is_submission x then 1 else 0))
          (sym e) (submits-SpendsWithin req)
    | inr other ↦
        EachMoves-SpendsWithin _ _ (other-EachMoves host codecs chain SameSends quiet_rules r other)
  ]
