-- ===== src/Chain/Solana/Methods/Build.antt =====
-- What `build_transfer` and `resolve_name` return, and what they refuse before any network call.
use mathlib.Core.Option
use mathlib.Core.Path.{subst}
use xend.Common.{
  ℕ, suc, ◌+◌, ◌^◌, ◌≡◌, refl, sym, ap, ◌∙◌, List, [], ◌∷◌, ◌++◌, Option, none, some, ok, err,
  arith, ltb, if◌then◌else◌,
}
use xend.Common.Text.{Text, text}
use xend.Error.{AppError, bad_request, invalid_recipient}
use xend.Crates.{Base64}
use xend.Runtime.{Host, World, ◌>>=◌, system_time}
use xend.Runtime.Success.{on_success, lift-eq-ok, pure-eq-ok}
use xend.Chain.Adapter.{TransferIntent, UnsignedTx}
use xend.Chain.Solana.Sdk.{Sdk, Pubkey, AccountMeta, Instruction}
use xend.Chain.Solana.Json.{Json, Network}
use xend.Chain.Solana.Instructions.{system_transfer, create_ata_idempotent, token_transfer_checked}
use xend.Chain.Solana.Methods.Transfer.{lift-ok_or, IsTransfer, transfer_instructions-IsTransfer}
use xend.Chain.Solana.Methods.{
  SolanaAdapter, validity, payer_of, transfer_instructions, build_transfer,
}

-- The accounts that have to sign the instructions, in order.
abbrev signing : List AccountMeta → List Pubkey
signing [] = []
signing (a ∷ rest) = if a.is_signer then a.pubkey ∷ signing rest else signing rest

unfoldable pub signers : List Instruction → List Pubkey
signers [] = []
signers (i ∷ is) = signing i.accounts ++ signers is

-- Native: the sender alone. Token: the payer, who funds the recipient's token account, and the
-- sender, who authorizes the transfer.
abbrev pub expected_signers : Pubkey → Pubkey → Option Text → List Pubkey
expected_signers payer from none = from ∷ []
expected_signers payer from (some mint) = payer ∷ from ∷ []

module _ (host : Host) (sdk : Sdk) (json : Json) (net : Network json) (base64 : Base64)
    (self : SolanaAdapter sdk) where
  transfer_signers :
      (payer from to : Pubkey) (amount : ℕ) (mint : Option Text) (w w' : World)
      (is : List Instruction)
      → transfer_instructions host sdk json net base64 self payer from to amount mint w
        ≡ (ok is, w')
      → signers is ≡ expected_signers payer from mint
  unfolding transfer_instructions signers system_transfer create_ata_idempotent
      token_transfer_checked
  transfer_signers payer from to amount none w w' is e =
      let p = (lift-eq-ok _ is w w' e).0 in ground arith
  transfer_signers payer from to amount (some m) w w' is e =
      on_success _ _ w is w' e λ mint u _ rest. on_success _ _ u is w' rest λ units v _ rest.
        on_success _ _ v is w' rest
          λ decimals x _ rest. let p = (pure-eq-ok _ is x w' rest).0 in rw (← p)

  time_read :
      (w : World) (now : ℕ) (w' : World)
      → system_time host w ≡ (ok now, w')
      → (host.now w.step ≡ now) × (w'.step ≡ suc w.step)
  unfolding system_time
  time_read w now w' e = (ground arith, ground arith)

  -- What a built transfer consists of; the time is read last.
  pub record IsBuilt (intent : TransferIntent) (tx : UnsignedTx) (w' : World) : Type 0 where
    pub from : Pubkey
    pub to : Pubkey
    pub instructions : List Instruction
    pub blockhash : sdk.Hash
    pub sender : sdk.pubkey_from_str intent.from ≡ some from
    pub recipient : sdk.pubkey_from_str intent.to ≡ some to
    pub message : tx.message ≡ sdk.message instructions (payer_of sdk self.fee_payer from) blockhash
    pub transfer :
        IsTransfer sdk
          (payer_of sdk self.fee_payer from)
          from
          to
          intent.amount
          intent.mint
          instructions
    pub authorized :
        signers instructions ≡ expected_signers (payer_of sdk self.fee_payer from) from intent.mint
    pub built_at : ℕ
    pub clock : w'.step ≡ suc built_at
    pub expires : tx.valid_until ≡ host.now built_at + validity
    pub sponsored :
        tx.fee_payer_signature ≡ Option.map (λ k. sdk.sign_message k tx.message) self.fee_payer

  -- A transfer that is built is the message of instructions that move exactly the amount asked for
  -- from the sender to the recipient: one native transfer, or for a mint the creation of the
  -- recipient's token account where it is missing and a checked transfer between the two token
  -- accounts, with amounts that read back from the payloads. The paymaster pays if there is one, and
  -- else the sender. The sender must sign, and nobody else but the payer of a token transfer. The
  -- transfer is valid for 90 seconds from the time that is read last, and carries the paymaster's
  -- signature of the message exactly if there is a paymaster.
  pub build_transfer-IsBuilt :
      (intent : TransferIntent) (w w' : World) (tx : UnsignedTx)
      → build_transfer host sdk json net base64 self intent w ≡ (ok tx, w')
      → IsBuilt intent tx w'
  unfolding build_transfer
  build_transfer-IsBuilt intent w w' tx e = on_success _ _ w tx w' e λ from u sender rest.
      on_success _ _ u tx w' rest λ to v recipient rest.
        on_success _ _ v tx w' rest λ is x built rest.
          on_success _ _ x tx w' rest λ blockhash y _ rest.
            on_success _ _ y tx w' rest λ now z clock rest.
              let p = (pure-eq-ok _ tx z w' rest).0 in
              record {
                from = from;
                to = to;
                instructions = is;
                blockhash = blockhash;
                sender = (lift-ok_or _ _ from w u sender).0;
                recipient = (lift-ok_or _ _ to u v recipient).0;
                message = ap (λ (t : UnsignedTx). t.message) (sym p);
                transfer =
                    transfer_instructions-IsTransfer host sdk json net base64 self _ from to
                      intent.amount intent.mint v x is built;
                authorized = transfer_signers _ from to intent.amount intent.mint v x is built;
                built_at = y.step;
                clock =
                    ap (λ (q : World). q.step) (sym (pure-eq-ok _ tx z w' rest).1)
                    ∙ (time_read y now z clock).1;
                expires =
                    ap (λ (t : UnsignedTx). t.valid_until) (sym p)
                    ∙ ap (λ t. t + validity) (sym (time_read y now z clock).0);
                sponsored =
                    subst
                      (λ (t : UnsignedTx).
                        t.fee_payer_signature
                        ≡ Option.map (λ k. sdk.sign_message k t.message) self.fee_payer)
                      p refl;
              }

-- Why a request is refused before the network is asked, if it is: the sender, the recipient, the mint
-- if there is one, and the amount are checked in this order.
abbrev pub refusal : Sdk → TransferIntent → Option AppError
refusal sdk intent = elim (sdk.pubkey_from_str intent.from) [
  | none ↦ some (bad_request (text "invalid sender address"))
  | some from ↦ elim (sdk.pubkey_from_str intent.to) [
    | none ↦ some invalid_recipient
    | some to ↦ elim intent.mint [
      | none ↦
          if ltb intent.amount (2 ^ 64)
          then none
          else some (bad_request (text "amount exceeds the maximum for SOL"))
      | some mint ↦ elim (sdk.pubkey_from_str mint) [
        | none ↦ some (bad_request (text "invalid mint"))
        | some key ↦
            if ltb intent.amount (2 ^ 64)
            then none
            else some (bad_request (text "amount exceeds the maximum for this token"))
      ]
    ]
  ]
]

module _ (host : Host) (sdk : Sdk) (json : Json) (net : Network json) (base64 : Base64)
    (self : SolanaAdapter sdk) where
  -- A request with a bad sender, recipient or mint, or too large an amount, is refused with the reason
  -- of the first of these that is wrong, and nothing has been asked of the network.
  pub build_transfer_refuses :
      (intent : TransferIntent) (w : World) (x : AppError)
      → refusal sdk intent ≡ some x
      → build_transfer host sdk json net base64 self intent w ≡ (err x, w)
  unfolding build_transfer transfer_instructions system_transfer ◌>>=◌
  build_transfer_refuses intent w x e = ground arith
