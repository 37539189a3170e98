-- ===== src/Handlers/Statements.antt =====
-- The handlers as runs of statements: between a request's first statement and its last, each change
-- of the tables is a statement of the store. So whatever holds along statements holds along the
-- handlers, alone or interleaved with others.
use mathlib.Core.Path.{subst}
use xend.Common.{Option, none, some, ok, sym, ℕ, ◌≡◌}
use xend.Common.Text.{Text}
use xend.Common.Bytes.{Bytes}
use xend.Runtime.{World, Host, M, run_sql}
use xend.Runtime.Moves.{
  Moves, IsPreorder, IgnoresStep, Moves-pure, Moves-lift, Moves-bind, Moves-new_uuid, Moves-run_sql,
}
use xend.Store.{Db, Statement}
use xend.Store.Steps.{
  Step, Steps, done, one_more, registers, looks_up_wallet, looks_up, claims, marks, lists,
  Steps-trans,
}
use xend.Store.Wallets.{upsert, find_id_by_pubkey}
use xend.Store.Transactions.{
  Existing, Claim, find_by_idempotency, insert_pending, mark_submitted, list_for_wallet,
}
use xend.Chain.Adapter.{ChainAdapter}
use xend.Chain.Adapter.Laws.{LeavesTables, SameDb}
use xend.Crates.{Base64, Base58, Rfc3339}
use xend.Handlers.Tx.{
  SubmitRequest, BuildRequest, build, sender_wallet, claim, relay, resume, after_lookup, submit,
  status,
}
use xend.Handlers.Wallet.{
  RegisterWalletRequest, HistoryQuery, register, balance, records_of, history, resolve,
}

-- The tables of the second world come from those of the first by statements.
abbrev pub RunsStatements : World → World → Type 0
RunsStatements u v = Steps u.db v.db

pub runs_preorder : IsPreorder RunsStatements
runs_preorder = record { reflexive = λ w. done; transitive = λ u v w p q. Steps-trans p q }

pub runs_ignores_step : IgnoresStep RunsStatements
runs_ignores_step = record { ticks = λ w. done }

module _ (host : Host) where
  pub statement-Runs :
      {A : Type 0} (st : Statement A)
      → ((now : ℕ) (a b : Db) (r : A) → st now a ≡ ok (r, b) → Step a b)
      → Moves RunsStatements (run_sql host st)
  statement-Runs st h =
      Moves-run_sql runs_ignores_step host st
        (record { along = λ now w a db e. one_more done (h now w.db db a e) })

  pub find_by_idempotency-Runs : (key : Text) → Moves RunsStatements (find_by_idempotency host key)
  unfolding find_by_idempotency
  find_by_idempotency-Runs key = statement-Runs _ (λ now a b r e. looks_up key now r e)

  pub find_id-Runs : (pubkey : Text) → Moves RunsStatements (find_id_by_pubkey host pubkey)
  unfolding find_id_by_pubkey
  find_id-Runs pubkey = statement-Runs _ (λ now a b r e. looks_up_wallet pubkey now r e)

  insert_pending-Runs : (c : Claim) → Moves RunsStatements (insert_pending host c)
  unfolding insert_pending
  insert_pending-Runs c =
      Moves-bind runs_preorder _ _ (Moves-new_uuid runs_ignores_step host)
        λ id. statement-Runs _ (λ now a b r e. claims id c now e)

  pub mark_submitted-Runs :
      (key signature : Text) → Moves RunsStatements (mark_submitted host key signature)
  unfolding mark_submitted
  mark_submitted-Runs key signature = statement-Runs _ (λ now a b r e. marks key signature now e)

  upsert-Runs :
      (pubkey : Text) (label : Option Text) → Moves RunsStatements (upsert host pubkey label)
  unfolding upsert
  upsert-Runs pubkey label =
      Moves-bind runs_preorder _ _ (Moves-new_uuid runs_ignores_step host)
        λ id. statement-Runs _ (λ now a b r e. registers id pubkey label now r e)

  pub list_for_wallet-Runs :
      (wallet limit : ℕ) (before : Option ℕ)
      → Moves RunsStatements (list_for_wallet host wallet limit before)
  unfolding list_for_wallet
  list_for_wallet-Runs wallet limit before =
      statement-Runs _ (λ now a b r e. lists wallet limit before now r e)

-- An action that leaves the tables runs no statement.
pub no_statement : {A : Type 0} (m : M A) → Moves SameDb m → Moves RunsStatements m
no_statement m h = record { at = λ w. subst (λ db. Steps w.db db) (sym (h.at w)) done }

module _ (host : Host) (base64 : Base64) (base58 : Base58) (chain : ChainAdapter)
    (law : LeavesTables chain) where
  sender_wallet-Runs : (o : Option Text) → Moves RunsStatements (sender_wallet host base64 chain o)
  unfolding sender_wallet
  sender_wallet-Runs none = Moves-pure runs_preorder none
  sender_wallet-Runs (some pubkey) = find_id-Runs host pubkey

  relay-Runs :
      (key : Text) (signed : Bytes) → Moves RunsStatements (relay host base64 chain key signed)
  unfolding relay
  relay-Runs key signed =
      Moves-bind runs_preorder _ _ (no_statement _ (law.validate_signed signed)) λ _.
        Moves-bind runs_preorder _ _ (no_statement _ (law.broadcast signed)) λ signature.
          Moves-bind runs_preorder _ _ (mark_submitted-Runs host key signature)
            λ _. Moves-pure runs_preorder _

  resume-Runs :
      (key : Text) (signed : Bytes) (status : Text) (s : Option Text)
      → Moves RunsStatements (resume host base64 chain key signed status s)
  unfolding resume
  resume-Runs key signed status none = relay-Runs key signed
  resume-Runs key signed status (some s) = Moves-pure runs_preorder _

  after_lookup-Runs :
      (req : SubmitRequest) (signed : Bytes) (o : Option Existing)
      → Moves RunsStatements (after_lookup host base64 chain req signed o)
  unfolding after_lookup claim
  after_lookup-Runs req signed (some e) =
      resume-Runs req.idempotency_key signed e.status e.signature
  after_lookup-Runs req signed none =
      Moves-bind runs_preorder _ _
        (Moves-bind runs_preorder _ _ (sender_wallet-Runs req.pubkey)
          λ wallet. insert_pending-Runs host _)
        λ _. relay-Runs req.idempotency_key signed

  pub submit-Runs : (req : SubmitRequest) → Moves RunsStatements (submit host base64 chain req)
  unfolding submit
  submit-Runs req = Moves-bind runs_preorder _ _ (Moves-lift runs_preorder _) λ signed.
      Moves-bind runs_preorder _ _ (find_by_idempotency-Runs host req.idempotency_key)
        λ found. after_lookup-Runs req signed found

  pub register-Runs :
      (req : RegisterWalletRequest) → Moves RunsStatements (register host base58 chain req)
  unfolding register
  register-Runs req = Moves-bind runs_preorder _ _ (Moves-lift runs_preorder _) λ _.
      Moves-bind runs_preorder _ _ (upsert-Runs host req.pubkey req.label)
        λ id. Moves-pure runs_preorder _

  records_of-Runs :
      (o : Option ℕ) (limit : ℕ) (before : Option ℕ)
      → Moves RunsStatements (records_of host base58 chain o limit before)
  unfolding records_of
  records_of-Runs none limit before = Moves-pure runs_preorder _
  records_of-Runs (some wallet) limit before =
      Moves-bind runs_preorder _ _ (list_for_wallet-Runs host wallet limit before)
        λ records. Moves-pure runs_preorder _

  pub history-Runs :
      (rfc3339 : Rfc3339) (pubkey : Text) (query : HistoryQuery)
      → Moves RunsStatements (history host base58 chain rfc3339 pubkey query)
  unfolding history
  history-Runs rfc3339 pubkey query = Moves-bind runs_preorder _ _ (Moves-lift runs_preorder _) λ _.
      Moves-bind runs_preorder _ _ (Moves-lift runs_preorder _) λ before.
        Moves-bind runs_preorder _ _ (find_id-Runs host pubkey)
          λ found. records_of-Runs found _ before

  pub build-Runs : (req : BuildRequest) → Moves RunsStatements (build host base64 chain req)
  unfolding build
  build-Runs req = Moves-bind runs_preorder _ _ (Moves-lift runs_preorder _) λ amount.
      Moves-bind runs_preorder _ _ (no_statement _ (law.build_transfer _))
        λ tx. Moves-pure runs_preorder _

  pub status-Runs : (signature : Text) → Moves RunsStatements (status host base64 chain signature)
  unfolding status
  status-Runs signature =
      Moves-bind runs_preorder _ _ (no_statement _ (law.status signature))
        λ c. Moves-pure runs_preorder _

  pub balance-Runs :
      (pubkey : Text) (mint : Option Text)
      → Moves RunsStatements (balance host base58 chain pubkey mint)
  unfolding balance
  balance-Runs pubkey mint = Moves-bind runs_preorder _ _ (Moves-lift runs_preorder _) λ _.
      Moves-bind runs_preorder _ _ (no_statement _ (law.balance pubkey mint))
        λ amount. Moves-pure runs_preorder _

  pub resolve-Runs : (name : Text) → Moves RunsStatements (resolve host base58 chain name)
  unfolding resolve
  resolve-Runs name =
      Moves-bind runs_preorder _ _ (no_statement _ (law.resolve_name name))
        λ address. Moves-pure runs_preorder _
