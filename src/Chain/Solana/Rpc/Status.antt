-- ===== src/Chain/Solana/Rpc/Status.antt =====
-- Which commitment a body of `getSignatureStatuses` is read as.
use xend.Common.{◌≡◌, ◌↔◌, refl, true, false, some, none, Option, arith}
use xend.Common.Text.{Text, text, text_eq, text_eq_iff}
use xend.Chain.Adapter.{confirmed, finalized}
use xend.Chain.Solana.Json.{Json}
use xend.Chain.Solana.Rpc.{commitment_of, level_of, result_value}

-- The entry of the signature has no error, and this level.
pub record HasLevel (json : Json) (body : json.Value) (level : Text) : Type 0 where
  pub known : json.is_null (json.nth (result_value json body) 0) ≡ false
  pub no_error : json.is_null (json.index (json.nth (result_value json body) 0) (text "err")) ≡ true
  pub says :
      json.as_str (json.index (json.nth (result_value json body) 0) (text "confirmationStatus"))
      ≡ some level

names_differ : text_eq (text "confirmed") (text "finalized") ≡ false
unfolding text text_eq
names_differ = refl

level-finalized :
    (json : Json) (o : Option Text) → level_of json o ≡ finalized → o ≡ some (text "finalized")
unfolding level_of
level-finalized json none e = absurd (ground arith)
level-finalized json (some name) e = ground (arith, text_eq_iff name (text "finalized"))

level-confirmed :
    (json : Json) (o : Option Text) → level_of json o ≡ confirmed → o ≡ some (text "confirmed")
unfolding level_of
level-confirmed json none e = absurd (ground arith)
level-confirmed json (some name) e = ground (arith, text_eq_iff name (text "confirmed"))

module _ (json : Json) (body : json.Value) where
  finalized_sound : commitment_of json body ≡ finalized → HasLevel json body (text "finalized")
  unfolding commitment_of
  finalized_sound e = record {
    known = ground arith;
    no_error = ground arith;
    says = level-finalized json _ (ground arith);
  }

  finalized_complete : HasLevel json body (text "finalized") → commitment_of json body ≡ finalized
  unfolding commitment_of level_of
  finalized_complete h = ground (arith, text_eq_iff (text "finalized") (text "finalized"))

  confirmed_sound : commitment_of json body ≡ confirmed → HasLevel json body (text "confirmed")
  unfolding commitment_of
  confirmed_sound e = record {
    known = ground arith;
    no_error = ground arith;
    says = level-confirmed json _ (ground arith);
  }

  confirmed_complete : HasLevel json body (text "confirmed") → commitment_of json body ≡ confirmed
  unfolding commitment_of level_of
  confirmed_complete h =
      ground (arith, names_differ, text_eq_iff (text "confirmed") (text "confirmed"))

  -- A transaction is reported as finalized, or as confirmed, exactly if the answer has an entry for
  -- it with no error and that level.
  pub commitment_of_iff :
      ((commitment_of json body ≡ finalized) ↔ HasLevel json body (text "finalized"))
      × ((commitment_of json body ≡ confirmed) ↔ HasLevel json body (text "confirmed"))
  commitment_of_iff = ((finalized_sound, finalized_complete), (confirmed_sound, confirmed_complete))
