-- ===== src/Handlers/Requests/Awaits/Reads.antt =====
-- Requests that write nothing leave the tables.
use mathlib.Core.Path.{subst}
use xend.Common.{sym}
use xend.Runtime.{World, Host, M}
use xend.Runtime.Moves.{Moves, Moves-run_sql}
use xend.Store.{Db}
use xend.Store.Steps.{find_id_keeps, list_keeps}
use xend.Store.Wallets.{find_id_by_pubkey}
use xend.Store.Transactions.{list_for_wallet}
use xend.Chain.Adapter.{ChainAdapter}
use xend.Chain.Adapter.Laws.{LeavesTables, SameDb, SameDb-IgnoresStep}
use xend.Handlers.Requests.Awaits.Rules.{ReadRules}

module _ (P : Db → Type 0) where
  -- What holds of the tables goes on to hold.
  abbrev pub KeepsTables : World → World → Type 0
  KeepsTables u v = P u.db → P v.db

  same-KeepsTables : {A : Type 0} (m : M A) → Moves SameDb m → Moves KeepsTables m
  same-KeepsTables m h = record { at = λ w p. subst P (sym (h.at w)) p }

  pub read_rules :
      (host : Host) (chain : ChainAdapter) → LeavesTables chain → ReadRules host chain KeepsTables
  unfolding find_id_by_pubkey list_for_wallet
  read_rules host chain law = record {
    find_id = λ pubkey. same-KeepsTables _ (
        Moves-run_sql SameDb-IgnoresStep host _
          (record { along = λ now w a db e. sym (find_id_keeps pubkey now w.db db a e) }));
    list = λ wallet limit before. same-KeepsTables _ (
        Moves-run_sql SameDb-IgnoresStep host _ (record {
          along = λ now w a db e. sym (list_keeps wallet limit before now w.db db a e);
        }));
    build_transfer = λ intent. same-KeepsTables _ (law.build_transfer intent);
    resolve_name = λ name. same-KeepsTables _ (law.resolve_name name);
    status = λ signature. same-KeepsTables _ (law.status signature);
    balance = λ address mint. same-KeepsTables _ (law.balance address mint);
  }
