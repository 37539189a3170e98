-- ===== src/Handlers/Tx/Shown.antt =====
-- What the sender sees in `history` after a submission.
use mathlib.Core.List.{Mem, mem-map_of_mem}
use xend.Common.{ℕ, suc, ◌≤◌, ◌≡◌, refl, ap, ◌∙◌, List, map, length, Option, none, some, ok, arith}
use xend.Common.Text.{Text}
use xend.Common.Int.{ℤ}
use xend.Common.Bytes.{Bytes}
use xend.Crates.{Base64, Base58, Rfc3339}
use xend.Runtime.{World, Host, M, pure, lift, advance}
use xend.Runtime.Moves.{
  Moves, IsPreorder, IgnoresStep, Moves-bind, Moves-pure, Moves-lift, Moves-new_uuid, Moves-run_sql,
  Moves-run,
}
use xend.Runtime.Success.{bind_of_ok, run_sql_of_ok}
use xend.Store.{Db, Wallet}
use xend.Store.Wallets.{select_by_pubkey, find_id_by_pubkey, find_id_statement, wallet_id}
use xend.Store.Transactions.{
  Record, Claim, Existing, select_by_key, find_by_idempotency, find_statement, insert_pending,
  insert_statement, mark_submitted, update_statement, list_for_wallet, list_statement, matching,
}
use xend.Chain.Adapter.{ChainAdapter}
use xend.Chain.Adapter.Laws.{LeavesTables, SameDb}
use xend.Handlers.Tx.{
  SubmitRequest, SubmitResponse, sender_wallet, claim, relay, resume, after_lookup, submit,
}
use xend.Handlers.Tx.Retries.{FaultFree}
use xend.Handlers.Tx.Listed.{submit-listed}
use xend.Handlers.Wallet.{
  HistoryResponse, transaction_record, validate_solana_pubkey, limit_of, records_of, history,
  cursor_of,
}

abbrev SameWallets : World → World → Type 0
SameWallets u v = v.db.wallets ≡ u.db.wallets

same_preorder : IsPreorder SameWallets
same_preorder = record { reflexive = λ w. refl; transitive = λ u v w p q. q ∙ p }

same_ignores_step : IgnoresStep SameWallets
same_ignores_step = record { ticks = λ w. refl }

module _ (host : Host) where
  find-SameWallets : (key : Text) → Moves SameWallets (find_by_idempotency host key)
  unfolding find_by_idempotency find_statement
  find-SameWallets key =
      Moves-run_sql same_ignores_step host _ (record { along = λ now w a db e. ground (arith, e) })

  find_id-SameWallets : (pubkey : Text) → Moves SameWallets (find_id_by_pubkey host pubkey)
  unfolding find_id_by_pubkey find_id_statement
  find_id-SameWallets pubkey =
      Moves-run_sql same_ignores_step host _ (record { along = λ now w a db e. ground (arith, e) })

  insert_pending-SameWallets : (c : Claim) → Moves SameWallets (insert_pending host c)
  unfolding insert_pending insert_statement
  insert_pending-SameWallets c =
      Moves-bind same_preorder _ _ (Moves-new_uuid same_ignores_step host) λ id.
        Moves-run_sql same_ignores_step host _
          (record { along = λ now w a db e. ground (arith, e) })

  mark_submitted-SameWallets :
      (key signature : Text) → Moves SameWallets (mark_submitted host key signature)
  unfolding mark_submitted update_statement
  mark_submitted-SameWallets key signature =
      Moves-run_sql same_ignores_step host _ (record { along = λ now w a db e. ground (arith, e) })

no_change : {A : Type 0} (m : M A) → Moves SameDb m → Moves SameWallets m
no_change m h = record { at = λ w. ap (λ (db : Db). db.wallets) (h.at w) }

module _ (host : Host) (base64 : Base64) (chain : ChainAdapter) (law : LeavesTables chain) where
  sender_wallet-SameWallets :
      (o : Option Text) → Moves SameWallets (sender_wallet host base64 chain o)
  unfolding sender_wallet
  sender_wallet-SameWallets none = Moves-pure same_preorder none
  sender_wallet-SameWallets (some pubkey) = find_id-SameWallets host pubkey

  relay-SameWallets :
      (key : Text) (signed : Bytes) → Moves SameWallets (relay host base64 chain key signed)
  unfolding relay
  relay-SameWallets key signed =
      Moves-bind same_preorder _ _ (no_change _ (law.validate_signed signed)) λ _.
        Moves-bind same_preorder _ _ (no_change _ (law.broadcast signed)) λ signature.
          Moves-bind same_preorder _ _ (mark_submitted-SameWallets host key signature)
            λ _. Moves-pure same_preorder _

  resume-SameWallets :
      (key : Text) (signed : Bytes) (status : Text) (s : Option Text)
      → Moves SameWallets (resume host base64 chain key signed status s)
  unfolding resume
  resume-SameWallets key signed status none = relay-SameWallets key signed
  resume-SameWallets key signed status (some s) = Moves-pure same_preorder _

  after_lookup-SameWallets :
      (req : SubmitRequest) (signed : Bytes) (o : Option Existing)
      → Moves SameWallets (after_lookup host base64 chain req signed o)
  unfolding after_lookup claim
  after_lookup-SameWallets req signed (some e) =
      resume-SameWallets req.idempotency_key signed e.status e.signature
  after_lookup-SameWallets req signed none =
      Moves-bind same_preorder _ _
        (Moves-bind same_preorder _ _ (sender_wallet-SameWallets req.pubkey)
          λ wallet. insert_pending-SameWallets host _)
        λ _. relay-SameWallets req.idempotency_key signed

  submit-SameWallets : (req : SubmitRequest) → Moves SameWallets (submit host base64 chain req)
  unfolding submit
  submit-SameWallets req = Moves-bind same_preorder _ _ (Moves-lift same_preorder _) λ signed.
      Moves-bind same_preorder _ _ (find-SameWallets host req.idempotency_key)
        λ found. after_lookup-SameWallets req signed found

  module _ (base58 : Base58) (rfc3339 : Rfc3339) where
    found_id :
        (pubkey : Text) (wallet : Wallet) (w : World)
        → select_by_pubkey pubkey w.db.wallets ≡ some wallet
        → FaultFree host w.step
        → find_id_by_pubkey host pubkey w ≡ (ok (some wallet.id), advance w)
    unfolding find_id_by_pubkey find_id_statement
    found_id pubkey wallet w known quiet =
        run_sql_of_ok host (find_id_statement pubkey) w (quiet w.step (omega arith))
          (ap (λ o. ok (wallet_id o, w.db)) known)

    shows_page :
        (id limit : ℕ) (w : World) (page : List Record)
        → host.fault w.step ≡ none
        → list_statement id limit none (host.now w.step) w.db ≡ ok (page, w.db)
        → records_of host base58 chain (some id) limit none w
          ≡ (ok (record { transactions = map transaction_record page }), advance w)
    unfolding records_of list_for_wallet pure
    shows_page id limit w page quiet listed =
        bind_of_ok _ _ w (run_sql_of_ok host (list_statement id limit none) w quiet listed)

    -- The first page of a registered key, where the statements meet no fault.
    history-runs :
        (pubkey : Text) (limit : Option ℤ) (wallet : Wallet) (w : World) (page : List Record)
        → validate_solana_pubkey base58 pubkey ≡ ok tt
        → select_by_pubkey pubkey w.db.wallets ≡ some wallet
        → FaultFree host w.step
        → list_statement wallet.id (limit_of limit) none (host.now (suc w.step)) w.db
          ≡ ok (page, w.db)
        → (w' : World) × (history host base58 chain rfc3339 pubkey
              (record { limit = limit; before = none })
              w
            ≡ (ok (record { transactions = map transaction_record page }), w'))
    unfolding history cursor_of lift pure
    history-runs pubkey limit wallet w page valid known quiet listed = (
      advance (advance w),
      bind_of_ok _ _ w (ap (λ r. (r, w)) valid)
          ∙ bind_of_ok _ _ w refl
          ∙ bind_of_ok _ _ w (found_id pubkey wallet w known quiet)
          ∙ shows_page wallet.id (limit_of limit) (advance w) page
              (quiet (suc w.step) (omega arith)) listed,
    )

    -- A submission that succeeds under a new key shows in the history of its sender: if the sender's
    -- address is valid and has a wallet, and the limit leaves room for all rows of the wallet, then
    -- the next call of `history` by the sender succeeds, where the database has no fault, and its
    -- answer has an entry with the signature and the status of the submission, and its recipient,
    -- amount and mint. The adapter leaves the tables.
    pub submit-history :
        (req : SubmitRequest) (pubkey : Text) (limit : Option ℤ) (wallet : Wallet) (w w' : World)
        (r : SubmitResponse)
        → req.pubkey ≡ some pubkey
        → validate_solana_pubkey base58 pubkey ≡ ok tt
        → select_by_pubkey pubkey w.db.wallets ≡ some wallet
        → select_by_key req.idempotency_key w.db.transactions ≡ none
        → submit host base64 chain req w ≡ (ok r, w')
        → FaultFree host w'.step
        → length (matching wallet.id none w'.db.transactions) ≤ limit_of limit
        → (answer : HistoryResponse) × (v : World) × (created : ℕ) × (history host base58 chain
              rfc3339 pubkey
              (record { limit = limit; before = none })
              w'
            ≡ (ok answer, v))
          × Mem
              (record {
                signature = r.signature;
                status = r.status;
                to = req.to;
                amount = req.amount;
                mint = req.mint;
                created_at = created;
              })
              answer.transactions
    submit-history req pubkey limit wallet w w' r named valid known new e quiet room =
        let (page, created, listed, shows) =
          submit-listed host base64 chain law req pubkey wallet w w' r (limit_of limit)
            (host.now (suc w'.step)) named known new e room in
        let known' : select_by_pubkey pubkey w'.db.wallets ≡ some wallet =
          ap (select_by_pubkey pubkey) (Moves-run (submit-SameWallets req) e) ∙ known in
        let (v, runs) = history-runs pubkey limit wallet w' page valid known' quiet listed in
        (
          record { transactions = map transaction_record page },
          v,
          created,
          runs,
          mem-map_of_mem transaction_record shows,
        )
