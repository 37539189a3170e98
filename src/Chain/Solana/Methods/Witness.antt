-- ===== src/Chain/Solana/Methods/Witness.antt =====
-- `impl ChainAdapter for SolanaAdapter` against what the handlers rely on.
use xend.Common.{ℕ, suc, ◌≤◌, Result, ◌≡◌, refl, ◌∙◌, ap, sym, Option, none, some, ok, arith}
use xend.Common.Text.{Text}
use xend.Common.Bytes.{Bytes}
use xend.Error.{AppError}
use xend.Crates.{Base64}
use xend.Runtime.{Host, World, Method, send_transaction, RpcRequest}
use xend.Runtime.Moves.{
  Moves, IsPreorder, IgnoresStep, Moves-pure, Moves-lift, Moves-bind, Moves-system_time,
}
use xend.Runtime.Success.{on_success, lift-eq-ok}
use xend.Runtime.Sends.{
  sends, sends_of, SameSends, SameSends-IsPreorder, SameSends-IgnoresStep, SendsAtMost,
  SendsAtMost-bind, SendsAtMost_of_SameSends,
}
use xend.Chain.Adapter.{TransferIntent}
use xend.Chain.Adapter.Laws.{
  SameDb, SameDb-IsPreorder, SameDb-IgnoresStep, LeavesTables, SendsOnBroadcast,
}
use xend.Chain.Solana.Sdk.{Sdk, Pubkey}
use xend.Chain.Solana.Json.{Json, Network}
use xend.Chain.Solana.Rpc.{post}
use xend.Chain.Solana.Methods.{
  SolanaAdapter, latest_blockhash, native_balance, token_balance, mint_decimals, sns_domain_owner,
  transfer_instructions, build_transfer, resolve_name, validate_signed, broadcast, status, balance,
  balance_of, solana,
}

sends_of-le : (m : Method) → sends_of m ≤ 1
sends_of-le send_transaction = omega arith
sends_of-le _ = omega arith

module _ (host : Host) (sdk : Sdk) (json : Json) (net : Network json) (base64 : Base64)
    (self : SolanaAdapter sdk) where
  module _ {R : World → World → Type 0} (p : IsPreorder R) (i : IgnoresStep R)
      (posts : (prefix : Text) (r : RpcRequest)
        → sends_of r.method ≡ 0
        → Moves R (post json net prefix r)) where
    latest_blockhash-Moves : Moves R (latest_blockhash host sdk json net base64 self)
    unfolding latest_blockhash
    latest_blockhash-Moves = Moves-bind p _ _ (posts _ _ refl) λ body. Moves-lift p _

    mint_decimals-Moves :
        (mint : Pubkey) → Moves R (mint_decimals host sdk json net base64 self mint)
    unfolding mint_decimals
    mint_decimals-Moves mint = Moves-bind p _ _ (posts _ _ refl) λ body. Moves-lift p _

    transfer_instructions-Moves :
        (payer from to : Pubkey) (amount : ℕ) (mint : Option Text)
        → Moves R (transfer_instructions host sdk json net base64 self payer from to amount mint)
    unfolding transfer_instructions
    transfer_instructions-Moves payer from to amount none = Moves-lift p _
    transfer_instructions-Moves payer from to amount (some m) =
        Moves-bind p _ _ (Moves-lift p _) λ mint.
          Moves-bind p _ _ (Moves-lift p _)
            λ units. Moves-bind p _ _ (mint_decimals-Moves mint) λ decimals. Moves-pure p _

    build_transfer-Moves :
        (intent : TransferIntent) → Moves R (build_transfer host sdk json net base64 self intent)
    unfolding build_transfer
    build_transfer-Moves intent = Moves-bind p _ _ (Moves-lift p _) λ from.
        Moves-bind p _ _ (Moves-lift p _) λ to.
          Moves-bind p _ _ (transfer_instructions-Moves _ from to intent.amount intent.mint) λ _.
            Moves-bind p _ _ latest_blockhash-Moves
              λ blockhash. Moves-bind p _ _ (Moves-system_time i host) λ now. Moves-pure p _

    resolve_name-Moves : (name : Text) → Moves R (resolve_name host sdk json net base64 self name)
    unfolding resolve_name sns_domain_owner
    resolve_name-Moves name = Moves-bind p _ _ (Moves-lift p _) λ label.
        Moves-bind p _ _ (Moves-bind p _ _ (posts _ _ refl) λ body. Moves-lift p _)
          λ owner. Moves-pure p _

    validate_signed-Moves :
        (signed : Bytes) → Moves R (validate_signed host sdk json net base64 self signed)
    unfolding validate_signed
    validate_signed-Moves signed = Moves-lift p _

    status-Moves : (signature : Text) → Moves R (status host sdk json net base64 self signature)
    unfolding status
    status-Moves signature = Moves-bind p _ _ (posts _ _ refl) λ body. Moves-pure p _

    balance_of-Moves :
        (address : Text) (mint : Option Text)
        → Moves R (balance_of host sdk json net base64 self address mint)
    unfolding balance_of native_balance token_balance
    balance_of-Moves address none = Moves-bind p _ _ (posts _ _ refl) λ body. Moves-lift p _
    balance_of-Moves address (some mint) =
        Moves-bind p _ _ (Moves-lift p _)
          λ _. Moves-bind p _ _ (posts _ _ refl) λ body. Moves-lift p _

    balance-Moves :
        (address : Text) (mint : Option Text)
        → Moves R (balance host sdk json net base64 self address mint)
    unfolding balance
    balance-Moves address mint =
        Moves-bind p _ _ (Moves-lift p _) λ _. balance_of-Moves address mint

  post-SameDb : (prefix : Text) (r : RpcRequest) → Moves SameDb (post json net prefix r)
  unfolding post
  post-SameDb prefix r = record { at = λ w. refl }

  -- The Solana adapter leaves the tables of the database alone.
  pub solana-LeavesTables : LeavesTables (solana host sdk json net base64 self)
  unfolding broadcast
  solana-LeavesTables =
      let p = SameDb-IsPreorder in
      let i = SameDb-IgnoresStep in
      let posts =
        λ (prefix : Text) (r : RpcRequest) (q : sends_of r.method ≡ 0). post-SameDb prefix r in
      record {
        build_transfer = build_transfer-Moves p i posts;
        resolve_name = resolve_name-Moves p i posts;
        validate_signed = validate_signed-Moves p i posts;
        broadcast = λ signed. Moves-bind p _ _ (post-SameDb _ _) λ body. Moves-lift p _;
        status = status-Moves p i posts;
        balance = balance-Moves p i posts;
      }

  post-SameSends :
      (prefix : Text) (r : RpcRequest)
      → sends_of r.method ≡ 0
      → Moves SameSends (post json net prefix r)
  unfolding post sends
  post-SameSends prefix r q = record { at = λ w. omega arith }

  post-SendsAtMost : (prefix : Text) (r : RpcRequest) → SendsAtMost 1 (post json net prefix r)
  unfolding post sends
  post-SendsAtMost prefix r = record { at = λ w. omega (arith, sends_of-le r.method) }

  broadcast_delivered :
      (signed : Bytes) (w : World) (signature : Text) (v : World)
      → broadcast host sdk json net base64 self signed w ≡ (ok signature, v)
      → sends v.sent ≡ suc (sends w.sent)
  unfolding broadcast post sends
  broadcast_delivered signed w signature v e = on_success _ _ w signature v e λ body u posted rest.
      ap (λ (z : World). sends z.sent) (sym (lift-eq-ok _ signature u v rest).1)
      ∙ ap (λ (q : Result json.Value AppError × World). sends q.1.sent) (sym posted)
      ∙ omega arith

  -- Of the methods of the Solana adapter only `broadcast` sends a transaction, and a call of it that
  -- succeeds has sent exactly one.
  pub solana-SendsOnBroadcast : SendsOnBroadcast (solana host sdk json net base64 self)
  unfolding broadcast
  solana-SendsOnBroadcast =
      let p = SameSends-IsPreorder in
      let i = SameSends-IgnoresStep in
      record {
        build_transfer = build_transfer-Moves p i post-SameSends;
        resolve_name = resolve_name-Moves p i post-SameSends;
        validate_signed = validate_signed-Moves p i post-SameSends;
        broadcast = λ signed.
            SendsAtMost-bind 1 0 _ _ (post-SendsAtMost _ _)
              λ body. SendsAtMost_of_SameSends _ (Moves-lift p _);
        delivered = broadcast_delivered;
        status = status-Moves p i post-SameSends;
        balance = balance-Moves p i post-SameSends;
      }
