-- ===== src/Handlers/Requests/Awaits/Rows.antt =====
-- Requests that are no submissions leave the rows of the ledger.
use mathlib.Core.Path.{subst}
use xend.Common.{◌≡◌, sym, ap, List}
use xend.Runtime.{World, Host, M}
use xend.Runtime.Moves.{Moves, IgnoresStep, Moves-new_uuid, Moves-run_sql}
use xend.Store.{Db, Transaction}
use xend.Store.Steps.{upsert-transactions, find_id_keeps, list_keeps}
use xend.Store.Wallets.{find_id_by_pubkey}
use xend.Store.Transactions.{list_for_wallet}
use xend.Chain.Adapter.{ChainAdapter}
use xend.Chain.Adapter.Laws.{LeavesTables, SameDb}
use xend.Handlers.Requests.Awaits.Rules.{OtherRules}

module _ (P : List Transaction → Type 0) where
  -- What holds of the rows goes on to hold.
  abbrev pub KeepsRows : World → World → Type 0
  KeepsRows u v = P u.db.transactions → P v.db.transactions

  pub rows_ignore_step : IgnoresStep KeepsRows
  rows_ignore_step = record { ticks = λ w p. p }

  pub same_rows : (a b : Db) → b.transactions ≡ a.transactions → P a.transactions → P b.transactions
  same_rows a b e p = subst P (sym e) p

  pub adapter-rows : {A : Type 0} (m : M A) → Moves SameDb m → Moves KeepsRows m
  adapter-rows m h = record {
    at = λ w p. same_rows w.db (m w).1.db (ap (λ (d : Db). d.transactions) (h.at w)) p;
  }

  pub row_rules :
      (host : Host) (chain : ChainAdapter) → LeavesTables chain → OtherRules host chain KeepsRows
  unfolding find_id_by_pubkey list_for_wallet
  row_rules host chain law = record {
    uuid = Moves-new_uuid rows_ignore_step host;
    upsert = λ id pubkey label. Moves-run_sql rows_ignore_step host _ (record {
      along =
          λ now w a db e. same_rows w.db db (upsert-transactions id pubkey label now w.db db a e);
    });
    reads = record {
      find_id = λ pubkey. Moves-run_sql rows_ignore_step host _ (record {
        along = λ now w a db e.
            same_rows w.db db
              (ap (λ (d : Db). d.transactions) (sym (find_id_keeps pubkey now w.db db a e)));
      });
      list = λ wallet limit before. Moves-run_sql rows_ignore_step host _ (record {
        along = λ now w a db e. same_rows w.db db (
            ap (λ (d : Db). d.transactions) (sym (list_keeps wallet limit before now w.db db a e)));
      });
      build_transfer = λ intent. adapter-rows _ (law.build_transfer intent);
      resolve_name = λ name. adapter-rows _ (law.resolve_name name);
      status = λ signature. adapter-rows _ (law.status signature);
      balance = λ address mint. adapter-rows _ (law.balance address mint);
    };
  }
