-- ===== src/Chain/Solana/Rpc/Readings.antt =====
-- What the readings of a body say of it.
use xend.Common.{
  ℕ, ◌+◌, ◌<◌, ◌≤◌, ◌≡◌, sym, ap, ◌∙◌, List, [], ◌∷◌, ◌++◌, some, ok, arith, take, drop, length,
  length-take, length-drop, take-append-drop,
}
use xend.Common.Text.{Text, text}
use xend.Common.Bytes.{Bytes}
use xend.Crates.{Base64}
use xend.Chain.Solana.Sdk.{Pubkey}
use xend.Chain.Solana.Json.{Json}
use xend.Chain.Solana.Rpc.{amount_of, decimals_of, owner_bytes, owner_of, result_value}

pub sum : List ℕ → ℕ
sum [] = 0
sum (n ∷ ns) = n + sum ns

-- The accounts have these amounts, one for each.
pub data HaveAmounts (json : Json) : List json.Value → List ℕ → Type 0 where
  nothing : HaveAmounts json [] []
  one_more :
      {v : json.Value} {n : ℕ} {vs : List json.Value} {ns : List ℕ}
      → amount_of json v ≡ ok n
      → HaveAmounts json vs ns
      → HaveAmounts json (v ∷ vs) (n ∷ ns)

split_account :
    (account : Bytes)
    → take 32 account ++ (take 32 (drop 32 account) ++ drop 32 (drop 32 account)) ≡ account
split_account account = rw (take-append-drop, take-append-drop)

module _ (json : Json) where
  -- The decimals of a mint fit a byte.
  pub decimals_of-IsByte : (body : json.Value) (n : ℕ) → decimals_of json body ≡ ok n → n < 256
  unfolding decimals_of
  decimals_of-IsByte body n e = ground arith

  account_of :
      (base64 : Base64) (body : json.Value) (owner : Pubkey)
      → owner_of json base64 body ≡ ok owner
      → (encoded : Text) × (account : Bytes) × (json.as_str
            (json.nth (json.index (result_value json body) (text "data")) 0)
          ≡ some encoded)
        × (base64.decode encoded ≡ some account)
        × (64 ≤ length account)
        × (owner ≡ take 32 (drop 32 account))
  unfolding owner_of owner_bytes
  account_of base64 body owner e = ground arith

  -- The owner that is read from a name's account is its second field of 32 bytes: the account is a
  -- parent of 32 bytes, the owner of 32 bytes, and a rest.
  pub owner_of-eq-ok :
      (base64 : Base64) (body : json.Value) (owner : Pubkey)
      → owner_of json base64 body ≡ ok owner
      → (encoded : Text) × (parent rest : Bytes) × (json.as_str
            (json.nth (json.index (result_value json body) (text "data")) 0)
          ≡ some encoded)
        × (base64.decode encoded ≡ some (parent ++ (owner ++ rest)))
        × (length parent ≡ 32)
        × (length owner ≡ 32)
  owner_of-eq-ok base64 body owner e =
      let (encoded, account, data_text, bytes, long, cut) = account_of base64 body owner e in
      (
        encoded,
        take 32 account,
        drop 32 (drop 32 account),
        data_text,
        bytes
            ∙ ap some (
                sym (split_account account)
                ∙ ap (λ o. take 32 account ++ (o ++ drop 32 (drop 32 account))) (sym cut)),
        omega (arith, length-take {0} 32 account),
        ap length cut
            ∙ omega (arith, length-take {0} 32 (drop 32 account), length-drop {0} 32 account),
      )
