-- ===== src/Handlers/Tx/Listed.antt =====
-- A submission shows in the history of its sender.
use mathlib.Core.List.{Mem}
use mathlib.Core.Path.{subst}
use xend.Common.{
  ℕ, ◌≤◌, ◌≡◌, refl, sym, ap, ◌∙◌, List, Option, none, some, ok, arith, length, any, Bool-cases,
  inl, inr,
}
use xend.Common.Text.{Text, text, text_eq_refl}
use xend.Common.Bytes.{Bytes}
use xend.Runtime.{World, Host, new_uuid}
use xend.Runtime.Success.{on_success, lift-eq-ok, run_sql-eq-ok}
use xend.Store.{Db, Wallet}
use xend.Store.Wallets.{select_by_pubkey, find_id_by_pubkey, find_id_statement}
use xend.Store.Transactions.{
  Record, Claim, existing, select_by_key, insert_pending, insert_statement, has_key, pending_row,
  submitted_row, matching, list_statement,
}
use xend.Store.Transactions.Keys.{select-append, any-has_key}
use xend.Store.Transactions.Listed.{shown, mem-list_statement}
use xend.Chain.Adapter.{ChainAdapter}
use xend.Chain.Adapter.Laws.{LeavesTables}
use xend.Crates.{Base64}
use xend.Handlers.Tx.{SubmitRequest, SubmitResponse, sender_wallet, claim, after_lookup, submit}
use xend.Handlers.Tx.Stored.{find-eq-ok, relay-row}

-- A claim of a new key has inserted its row.
insert-row :
    (id : ℕ) (c : Claim) (now : ℕ) (db db' : Db)
    → select_by_key c.idempotency_key db.transactions ≡ none
    → insert_statement id c now db ≡ ok (tt, db')
    → select_by_key c.idempotency_key db'.transactions ≡ some (pending_row id now c)
unfolding insert_statement pending_row
insert-row id c now db db' new h =
    elim (Bool-cases (any (has_key c.idempotency_key) db.transactions)) [
      | inl old ↦
          let (row, e) = any-has_key c.idempotency_key db.transactions old in absurd (ground arith)
      | inr fresh ↦ ground (
        arith,
        select-append c.idempotency_key db.transactions (pending_row id now c),
        text_eq_refl c.idempotency_key,
      )
    ]

drawn-db : (host : Host) (u v : World) (id : ℕ) → new_uuid host u ≡ (ok id, v) → v.db ≡ u.db
unfolding new_uuid
drawn-db host u v id e = ap (λ r. r.1.db) (sym e)

-- The statement of the sender's wallet finds it.
find_id-wallet :
    (host : Host) (pubkey : Text) (wallet : Wallet) (w u : World) (owner : Option ℕ)
    → select_by_pubkey pubkey w.db.wallets ≡ some wallet
    → find_id_by_pubkey host pubkey w ≡ (ok owner, u)
    → (owner ≡ some wallet.id) × (u.db ≡ w.db)
unfolding find_id_by_pubkey find_id_statement
find_id-wallet host pubkey wallet w u owner known e =
    let answer = (run_sql-eq-ok host (find_id_statement pubkey) w owner u e).returned in
    (ground arith, ground arith)

module _ (host : Host) (base64 : Base64) (chain : ChainAdapter) (law : LeavesTables chain) where
  -- The claim of a request, with the wallet of its sender.
  abbrev claim_of : SubmitRequest → ℕ → Claim
  claim_of req wallet = record {
    wallet_id = some wallet;
    idempotency_key = req.idempotency_key;
    to_address = req.to;
    amount = req.amount;
    mint = req.mint;
  }

  claim-row :
      (req : SubmitRequest) (pubkey : Text) (wallet : Wallet) (w w' : World)
      → req.pubkey ≡ some pubkey
      → select_by_pubkey pubkey w.db.wallets ≡ some wallet
      → select_by_key req.idempotency_key w.db.transactions ≡ none
      → claim host base64 chain req w ≡ (ok tt, w')
      → (id now : ℕ) × (select_by_key req.idempotency_key w'.db.transactions
          ≡ some (pending_row id now (claim_of req wallet.id)))
  unfolding claim insert_pending sender_wallet
  claim-row req pubkey wallet w w' named known new e =
      on_success _ _ w tt w' e λ owner u looked_up rest.
        on_success _ _ u tt w' rest λ id v drawn inserted.
          let (owns, same) =
            find_id-wallet host pubkey wallet w u owner known (rw named at looked_up) in
          let before : select_by_key req.idempotency_key v.db.transactions ≡ none =
            ap (λ d. select_by_key req.idempotency_key d.transactions)
              (drawn-db host u v id drawn ∙ same)
            ∙ new in
          let ran = run_sql-eq-ok host _ v tt w' inserted in
          let row = insert-row id _ _ v.db w'.db before ran.returned in
          (
            id,
            host.now v.step,
            row
                ∙ ap
                    (λ o. some (
                      pending_row id (host.now v.step)
                        (record (claim_of req wallet.id) { wallet_id = o })))
                    owns,
          )

  new-row :
      (req : SubmitRequest) (pubkey : Text) (wallet : Wallet) (signed : Bytes) (w w' : World)
      (r : SubmitResponse)
      → req.pubkey ≡ some pubkey
      → select_by_pubkey pubkey w.db.wallets ≡ some wallet
      → select_by_key req.idempotency_key w.db.transactions ≡ none
      → after_lookup host base64 chain req signed none w ≡ (ok r, w')
      → (id created now : ℕ) × (select_by_key req.idempotency_key w'.db.transactions
          ≡ some (submitted_row r.signature now (pending_row id created (claim_of req wallet.id))))
        × (r.status ≡ text "submitted")
  unfolding after_lookup
  new-row req pubkey wallet signed w w' r named known new e =
      on_success _ _ w r w' e λ _ u claimed rest.
        let (id, created, row) = claim-row req pubkey wallet w u named known new claimed in
        let (now, written, status) =
          relay-row host base64 chain law req.idempotency_key signed u w' r _ row rest in
        (id, created, now, written, status)

  listed_at :
      (key : Text) (c : Claim) (wallet id created marked_at n now : ℕ) (w : World)
      (r : SubmitResponse)
      → c.wallet_id ≡ some wallet
      → select_by_key key w.db.transactions
        ≡ some (submitted_row r.signature marked_at (pending_row id created c))
      → r.status ≡ text "submitted"
      → length (matching wallet none w.db.transactions) ≤ n
      → (page : List Record) × (list_statement wallet n none now w.db ≡ ok (page, w.db))
        × Mem
            (record {
              signature = r.signature;
              status = r.status;
              to_address = c.to_address;
              amount = c.amount;
              mint = c.mint;
              created_at = created;
            })
            page
  unfolding submitted_row pending_row
  listed_at key c wallet id created marked_at n now w r owned row status room =
      let (page, listed, shows) =
        mem-list_statement key r.signature wallet n now w.db _ row owned refl room in
      (
        page,
        listed,
        subst
            (λ (t : Text).
              Mem (record (shown (pending_row id created c) r.signature) { status = t }) page)
            (sym status) shows,
      )

  -- A submission that succeeds under a new key shows in the history of its sender: a listing of the
  -- sender's wallet with room for all of its rows has a record with the signature and the status of
  -- the answer, and the recipient, the amount and the mint of the request. The adapter leaves the
  -- tables.
  pub submit-listed :
      (req : SubmitRequest) (pubkey : Text) (wallet : Wallet) (w w' : World) (r : SubmitResponse)
      (n now : ℕ)
      → req.pubkey ≡ some pubkey
      → select_by_pubkey pubkey w.db.wallets ≡ some wallet
      → select_by_key req.idempotency_key w.db.transactions ≡ none
      → submit host base64 chain req w ≡ (ok r, w')
      → length (matching wallet.id none w'.db.transactions) ≤ n
      → (page : List Record) × (created : ℕ) × (list_statement wallet.id n none now w'.db
          ≡ ok (page, w'.db))
        × Mem
            (record {
              signature = r.signature;
              status = r.status;
              to_address = req.to;
              amount = req.amount;
              mint = req.mint;
              created_at = created;
            })
            page
  unfolding submit
  submit-listed req pubkey wallet w w' r n now named known new e room =
      on_success _ _ w r w' e λ signed u decoded rest.
        on_success _ _ u r w' rest λ found v looked_up rest.
          let (answer, same) = find-eq-ok host req.idempotency_key u v found looked_up in
          let start = (lift-eq-ok _ signed w u decoded).1 in
          let db : v.db ≡ w.db = same ∙ ap (λ (z : World). z.db) (sym start) in
          let missing : found ≡ none =
            answer
            ∙ ap (λ d. existing (select_by_key req.idempotency_key d.transactions)) db
            ∙ ap existing new in
          let (id, created, marked_at, row, status) =
            new-row req pubkey wallet signed v w' r named
              (ap (λ d. select_by_pubkey pubkey d.wallets) db ∙ known)
              (ap (λ d. select_by_key req.idempotency_key d.transactions) db ∙ new)
              (rw missing at rest) in
          let (page, listed, shows) =
            listed_at req.idempotency_key (claim_of req wallet.id) wallet.id id created marked_at n
              now w' r refl row status room in
          (page, created, listed, shows)
