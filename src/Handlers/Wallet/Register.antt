-- ===== src/Handlers/Wallet/Register.antt =====
-- Registering a key again.
use xend.Common.{ℕ, suc, ◌≡◌, none, ok, length, arith}
use mathlib.Core.Path.{subst₂}
use xend.Crates.{Base58}
use xend.Runtime.{Host, World, ◌>>=◌, pure, lift, new_uuid, run_sql}
use xend.Runtime.Success.{on_success, lift-eq-ok, pure-eq-ok, run_sql-eq-ok}
use xend.Store.Wallets.{upsert, upsert_statement}
use xend.Store.Wallets.Keys.{IsRegistered, upsert-IsRegistered, upsert_of_IsRegistered}
use xend.Chain.Adapter.{ChainAdapter}
use xend.Handlers.Wallet.{
  RegisterWalletRequest, RegisterWalletResponse, register, validate_solana_pubkey,
}

module _ (host : Host) (base58 : Base58) (chain : ChainAdapter) where
  -- An answer of `register` means that the key is a valid one, and that the tables have a wallet of
  -- the key under the id of the answer.
  pub register-IsRegistered :
      (req : RegisterWalletRequest) (w w' : World) (r : RegisterWalletResponse)
      → register host base58 chain req w ≡ (ok r, w')
      → (validate_solana_pubkey base58 req.pubkey ≡ ok tt)
        × (r.pubkey ≡ req.pubkey)
        × IsRegistered req.pubkey r.wallet_id w'.db
  unfolding register upsert
  register-IsRegistered req w w' r e = on_success _ _ w r w' e λ _ v p e₁.
      on_success _ _ v r w' e₁ λ id v₂ q rest. on_success _ _ v id v₂ q λ new v₃ s t.
        let (valid, same) = lift-eq-ok _ _ w v p in
        let ran = run_sql-eq-ok host (upsert_statement new req.pubkey req.label) v₃ id v₂ t in
        let registered =
          upsert-IsRegistered new req.pubkey req.label _ v₃.db v₂.db id ran.returned in
        let (answer, last) = pure-eq-ok _ r v₂ w' rest in
        (
          valid,
          ground arith,
          subst₂ (λ i u. IsRegistered req.pubkey i u.db) (ground arith) last registered,
        )

  -- Registering a valid key that is registered, where the statement meets no fault, answers with
  -- the wallet's id again, adds no wallet and leaves the transactions alone.
  pub register_of_IsRegistered :
      (req : RegisterWalletRequest) (w : World) (id : ℕ)
      → validate_solana_pubkey base58 req.pubkey ≡ ok tt
      → IsRegistered req.pubkey id w.db
      → host.fault (suc w.step) ≡ none
      → (w' : World) × (register host base58 chain req w
          ≡ (ok (record { wallet_id = id; pubkey = req.pubkey }), w'))
        × (length w'.db.wallets ≡ length w.db.wallets)
        × (w'.db.transactions ≡ w.db.transactions)
  unfolding register upsert ◌>>=◌ lift pure new_uuid run_sql
  register_of_IsRegistered req w id valid known up =
      let (db, e, size, same) =
        upsert_of_IsRegistered (host.uuid w.step) req.pubkey req.label (host.now (suc w.step)) w.db
          id known in
      (record w { db = db; step = suc (suc w.step) }, ground arith, size, same)
