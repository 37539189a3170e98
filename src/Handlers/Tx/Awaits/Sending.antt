-- ===== src/Handlers/Tx/Awaits/Sending.antt =====
-- A submission that found its key without a row goes on to broadcast, also when the row stands by then.
use mathlib.Core.Path.{subst}
use xend.Common.{
  ℕ, ◌+◌, ◌≡◌, refl, sym, ap, ◌∙◌, ◌⊎◌, inl, inr, Bool-cases, false, ◌==◌, any, List, [], ◌∷◌, ◌++◌,
  none, some, ok, arith,
}
use xend.Common.Text.{Text}
use xend.Common.Bytes.{Bytes}
use xend.Crates.{Base64}
use xend.Runtime.{World, Host, M, new_uuid}
use xend.Runtime.Moves.{Moves, Moves-run_sql}
use xend.Runtime.Success.{run_sql_of_ok}
use xend.Runtime.Sends.{sends, SameSends-run_sql}
use xend.Runtime.Program.Delivers.{Delivers}
use xend.Store.{Db, Transaction}
use xend.Store.Transactions.{
  Claim, has_key, pending_row, insert_statement, update_rows, update_statement, mark_submitted,
  refers,
}
use xend.Store.Transactions.Keys.{HasKey, select-any}
use xend.Chain.Adapter.{ChainAdapter}
use xend.Chain.Adapter.Laws.{LeavesTables, SendsOnBroadcast, SameDb}
use xend.Handlers.Tx.{SubmitRequest}
use xend.Handlers.Tx.Stored.{insert-HasKey}
use xend.Handlers.Tx.Retries.{FaultFree}
use xend.Handlers.Tx.Awaits.Ready.{still_claimed}
use xend.Handlers.Tx.Awaits.{relay_program, claim_program, sender_program, after_lookup_program}

-- The adapter accepts the bytes, and the network takes them.
pub record Takes (chain : ChainAdapter) (signed : Bytes) : Type 0 where
  pub validates : (w : World) → (w' : World) × (chain.validate_signed signed w ≡ (ok tt, w'))
  pub broadcasts : (w : World) → (t : Text) × (w' : World) × (chain.broadcast signed w ≡ (ok t, w'))

-- A submission of the key with the bytes, which names no sender.
pub record IsAnonymous (base64 : Base64) (key : Text) (signed : Bytes) (req : SubmitRequest)
    : Type 0 where
  pub same_key : req.idempotency_key ≡ key
  pub carries : base64.decode req.signed ≡ some signed
  pub no_sender : req.pubkey ≡ none

mark_sends :
    (host : Host) (k signature : Text) (w : World)
    → sends (mark_submitted host k signature w).1.sent ≡ 0 + sends w.sent
unfolding mark_submitted
mark_sends host k signature w = omega (arith, (SameSends-run_sql host _).at w)

update_tables :
    (k signature : Text) (now : ℕ) (a b : Db)
    → update_statement k signature now a ≡ ok (tt, b)
    → b ≡ record a { transactions = update_rows k signature now a.transactions }
unfolding update_statement
update_tables k signature now a b e = ground arith

module _ (key : Text) (rows : List Transaction) where
  -- The rows are the ones of the start, or the key has a row.
  abbrev pub Claimable : Db → Type 0
  Claimable db = (db.transactions ≡ rows) ⊎ HasKey key db

  abbrev pub J : World → Type 0
  J w = Claimable w.db

  inserted :
      (id now : ℕ) (c : Claim) (db : Db)
      → any (λ row. row.id == id) rows ≡ false
      → c.wallet_id ≡ none
      → c.idempotency_key ≡ key
      → any (has_key c.idempotency_key) db.transactions ≡ false
      → Claimable db
      → (db' : Db) × (insert_statement id c now db ≡ ok (tt, db')) × Claimable db'
  inserted id now c db fresh owner same new (inr (row, e)) =
      absurd (ground (arith, select-any key db.transactions row e))
  inserted id now c db fresh owner same new (inl e) =
      let db' : Db = record db { transactions = db.transactions ++ pending_row id now c ∷ [] } in
      let unused : any (λ row. row.id == id) db.transactions ≡ false =
        ap (any (λ row. row.id == id)) e ∙ fresh in
      let run : insert_statement id c now db ≡ ok (tt, db') =
        unfold insert_statement refers in rw (new, unused, owner) refl in
      (db', run, inr (subst (λ k. HasKey k db') same (insert-HasKey id c now db db' run)))

  insert-Claimable :
      (id now : ℕ) (c : Claim) (db : Db)
      → any (λ row. row.id == id) rows ≡ false
      → c.wallet_id ≡ none
      → c.idempotency_key ≡ key
      → Claimable db
      → (db' : Db) × (insert_statement id c now db ≡ ok (tt, db')) × Claimable db'
  insert-Claimable id now c db fresh owner same claimable =
      elim (Bool-cases (any (has_key c.idempotency_key) db.transactions)) [
        | inl known ↦ (db, unfold insert_statement in rw known refl, claimable)
        | inr new ↦ inserted id now c db fresh owner same new claimable
      ]

  mark-Claimable :
      (host : Host) (k signature : Text)
      → k ≡ key
      → Moves (λ u v. J u → J v) (mark_submitted host k signature)
  unfolding mark_submitted
  mark-Claimable host k signature same =
      Moves-run_sql (record { ticks = λ w j. j }) host _
        (record {
          along = λ now w u db e j.
              subst Claimable (sym (update_tables k signature now w.db db e)) (
                subst
                  (λ x.
                    Claimable (record w.db {
                      transactions = update_rows x signature now w.db.transactions;
                    }))
                  (sym same) (still_claimed key signature rows w.db.wallets now w.db j));
        })

  module _ (host : Host) (base64 : Base64) (chain : ChainAdapter) (law : LeavesTables chain)
      (sending : SendsOnBroadcast chain) (quiet : FaultFree host 0)
      (fresh : (n : ℕ) → any (λ row. row.id == host.uuid n) rows ≡ false) where
    adapter-J : {A : Type 0} (m : M A) → Moves SameDb m → (w : World) → J w → J (m w).1
    adapter-J m h w j = subst Claimable (sym (h.at w)) j

    relay-Delivers :
        (k : Text) (signed : Bytes)
        → k ≡ key
        → Takes chain signed
        → Delivers J (relay_program host base64 chain k signed) 1
    unfolding relay_program
    relay-Delivers k signed same takes = λ w j. (
      0,
      1,
      omega arith,
      omega (arith, (sending.validate_signed signed).at w),
      adapter-J _ (law.validate_signed signed) w j,
      (let (w', e) = takes.validates w in inr (tt, ap (λ r. r.0) e)),
      λ u _ v l. (
        1,
        0,
        omega arith,
        (let (t, v', e) = takes.broadcasts v in
            subst (λ r. sends r.1.sent ≡ 1 + sends v.sent) (sym e)
              (sending.delivered signed v t v' e ∙ omega arith)),
        adapter-J _ (law.broadcast signed) v l,
        inl refl,
        λ t _ x o. (
          0,
          0,
          omega arith,
          mark_sends host k t x,
          (mark-Claimable host k t same).at x o,
          inl refl,
          λ _ _. refl,
        ),
      ),
    )

    claim-Delivers :
        (req : SubmitRequest) (signed : Bytes)
        → req.idempotency_key ≡ key
        → Takes chain signed
        → Delivers J (claim_program host base64 chain req signed none) 1
    unfolding claim_program new_uuid
    claim-Delivers req signed same takes = λ w j. (
      0,
      1,
      omega arith,
      omega arith,
      j,
      inr (host.uuid w.step, refl),
      λ id drawn v l.
          let no_fault = quiet v.step (omega arith) in
          let (db', run, l') =
            insert-Claimable id (host.now v.step) _ v.db
              (subst (λ n. any (λ row. row.id == n) rows ≡ false) (ground (arith, drawn))
                (fresh w.step))
              refl same l in
          let e = run_sql_of_ok host _ v no_fault run in
          (
            0,
            1,
            omega arith,
            omega (arith, (SameSends-run_sql host _).at v),
            subst (λ r. J r.1) (sym e) l',
            inr (tt, ap (λ r. r.0) e),
            λ _ _. relay-Delivers req.idempotency_key signed same takes,
          ),
    )

    pub looked_up-Delivers :
        (req : SubmitRequest) (signed : Bytes)
        → IsAnonymous base64 key signed req
        → Takes chain signed
        → Delivers J (after_lookup_program host base64 chain req signed none) 1
    unfolding after_lookup_program sender_program
    looked_up-Delivers req signed is takes =
        subst (λ o. Delivers J (sender_program host base64 chain req signed o) 1) (sym is.no_sender)
          (claim-Delivers req signed is.same_key takes)
