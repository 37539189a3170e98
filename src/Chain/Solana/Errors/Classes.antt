-- ===== src/Chain/Solana/Errors/Classes.antt =====
-- Which message is in which class.
use xend.Common.{◌≡◌, refl, ◌↔◌, ◌⊎◌, inl, inr, ◌++◌, true, arith, Bool-cases}
use xend.Common.Text.{Text, text, contains, to_ascii_lowercase}
use xend.Common.Text.Search.{contains_around, contains-eq-true}
use xend.Error.{blockhash_expired, chain_rejected}
use xend.Chain.Solana.Errors.{classify}

-- The phrase stands in the message, in any mix of capitals and small letters.
abbrev pub Mentions : Text → Text → Type 0
Mentions phrase message =
    (before after : Text) × (to_ascii_lowercase message ≡ before ++ (phrase ++ after))

contains_of_Mentions :
    (phrase message : Text)
    → Mentions phrase message
    → contains phrase (to_ascii_lowercase message) ≡ true
contains_of_Mentions phrase message (before, after, e) = rw e (contains_around before phrase after)

abbrev pub SaysExpired : Text → Type 0
SaysExpired message =
    Mentions (text "blockhash not found") message ⊎ Mentions (text "block height exceeded") message

-- A send error counts as an expired blockhash exactly when its message mentions one of the two
-- phrases, whatever else it mentions and in whatever case.
pub classify-expired_iff :
    (message : Text) → (classify message ≡ blockhash_expired) ↔ SaysExpired message
unfolding classify
classify-expired_iff message = (
  λ e. elim (Bool-cases (contains (text "blockhash not found") (to_ascii_lowercase message))) [
    | inl first ↦ inl (contains-eq-true _ _ first)
    | inr no_first ↦ inr (contains-eq-true _ _ (ground arith))
  ],
  λ m. elim m [
    | inl a ↦ rw (contains_of_Mentions _ message a) refl
    | inr b ↦ ground (arith, contains_of_Mentions (text "block height exceeded") message b)
  ],
)

-- A message of no other class is passed on unchanged.
pub classify-rejected : (message m : Text) → classify message ≡ chain_rejected m → m ≡ message
unfolding classify
classify-rejected message m e = ground arith
