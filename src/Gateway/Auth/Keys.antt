-- ===== src/Gateway/Auth/Keys.antt =====
-- Which requests the keys let through.
use xend.Common.{
  ℕ, ◌≡◌, ◌↔◌, refl, sym, ap, ◌∙◌, true, List, [], ◌∷◌, ◌++◌, Option, none, some, arith, map,
  replicate, All, select, not, Bool-cases, Option-cases, inl, inr,
}
use xend.Common.Text.{Text, text, text_eq_iff, trim, strip_prefix, is_empty, split}
use xend.Common.Text.Affix.{strip_prefix-append, strip_prefix-eq-some}
use xend.Common.Text.Trim.{trim-spaces, trim_idem}
use xend.Gateway.Auth.{is_authorized, parse_api_keys, has_member, presents}

-- With keys configured, a request is let through exactly if its header is `Bearer ` and a text
-- that is one of them once it is trimmed.
pub is_authorized_iff :
    (k : Text) (ks : List Text) (header : Option Text)
    → (is_authorized (k ∷ ks) header ≡ true) ↔ (
        (rest : Text) × (header ≡ some (text "Bearer " ++ rest))
        × (has_member (k ∷ ks) (trim rest) ≡ true))
unfolding is_authorized
is_authorized_iff k ks none = (λ e. cc, λ h. absurd (ground arith))
is_authorized_iff k ks (some h) = (
  λ e. elim (Option-cases (strip_prefix (text "Bearer ") h)) [
    | inl missing ↦ absurd (ground arith)
    | inr (rest, found) ↦
        (rest, ap some (strip_prefix-eq-some (text "Bearer ") h rest found), ground arith)
  ],
  λ w. let (rest, e, m) = w in ground (arith, strip_prefix-append (text "Bearer ") rest),
)

-- Spaces between the scheme and the key do not change the answer.
pub is_authorized-spaces :
    (keys : List Text) (n : ℕ) (key : Text)
    → is_authorized keys (some (text "Bearer " ++ (replicate n 32 ++ key)))
      ≡ is_authorized keys (some (text "Bearer " ++ key))
unfolding is_authorized
is_authorized-spaces [] n key = refl
is_authorized-spaces (k ∷ ks) n key =
    ap (presents (k ∷ ks)) (strip_prefix-append (text "Bearer ") (replicate n 32 ++ key))
    ∙ ap (has_member (k ∷ ks)) (trim-spaces n key)
    ∙ ap (presents (k ∷ ks)) (sym (strip_prefix-append (text "Bearer ") key))

abbrev IsTrimmed : Text → Type 0
IsTrimmed k = trim k ≡ k

select-IsTrimmed :
    (parts : List Text) → All IsTrimmed (select (λ k. not (is_empty k)) (map trim parts))
select-IsTrimmed [] = tt
select-IsTrimmed (p ∷ ps) = elim (Bool-cases (is_empty (trim p))) [
  | inl blank ↦ rw blank (select-IsTrimmed ps)
  | inr filled ↦ rw filled (trim_idem p, select-IsTrimmed ps)
]

member-IsTrimmed :
    (keys : List Text) (key : Text)
    → All IsTrimmed keys
    → has_member keys key ≡ true
    → IsTrimmed key
member-IsTrimmed [] key h m = cc
member-IsTrimmed (k ∷ ks) key h m = ground (arith, text_eq_iff k key, member-IsTrimmed ks key h.1)

authorized_member :
    (keys : List Text) (key : Text)
    → IsTrimmed key
    → has_member keys key ≡ true
    → is_authorized keys (some (text "Bearer " ++ key)) ≡ true
unfolding is_authorized
authorized_member [] key t m = refl
authorized_member (k ∷ ks) key t m =
    ap (presents (k ∷ ks)) (strip_prefix-append (text "Bearer ") key)
    ∙ ap (has_member (k ∷ ks)) t
    ∙ m

-- Every key that is read from `XEND_API_KEYS` lets a request through.
parse_api_keys_accepted :
    (env key : Text)
    → has_member (parse_api_keys env) key ≡ true
    → is_authorized (parse_api_keys env) (some (text "Bearer " ++ key)) ≡ true
parse_api_keys_accepted env key m =
    authorized_member (parse_api_keys env) key
      (member-IsTrimmed (parse_api_keys env) key
        (unfold parse_api_keys in select-IsTrimmed (split b',' env)) m)
      m
