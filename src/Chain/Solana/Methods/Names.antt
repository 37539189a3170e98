-- ===== src/Chain/Solana/Methods/Names.antt =====
-- Which names `resolve_name` looks up.
use mathlib.Core.Path.{subst}
use xend.Common.{
  ◌≡◌, ◌≢◌, ◌↔◌, refl, ap, ◌∙◌, false, any, [], ◌∷◌, ◌++◌, some, err, arith, Option-cases, inl, inr,
  ◌==◌, Bool-cases,
}
use xend.Common.Text.{Text, text, strip_suffix}
use xend.Common.Text.Affix.{strip_suffix-eq-some, strip_suffix-append}
use xend.Error.{invalid_recipient}
use xend.Crates.{Base64}
use xend.Runtime.{Host, World, ◌>>=◌}
use xend.Chain.Solana.Sdk.{Sdk}
use xend.Chain.Solana.Json.{Json, Network}
use xend.Chain.Solana.Methods.{SolanaAdapter, resolve_name, sol_label, single_label}

-- A label is not empty and has no dot.
abbrev pub IsLabel : Text → Type 0
IsLabel label = (label ≢ []) × (any (λ c. c == b'.') label ≡ false)

single_label_sound :
    (front label : Text) → single_label (some front) ≡ some label → (front ≡ label) × IsLabel label
single_label_sound [] label e = absurd (ground arith)
single_label_sound (c ∷ s) label e = elim (Bool-cases (any (λ c. c == b'.') (c ∷ s))) [
  | inl dotted ↦ absurd (ground arith)
  | inr single ↦
      let same : c ∷ s ≡ label = ground arith in (same, subst IsLabel same ((λ empty. cc), single))
]

single_label_complete : (label : Text) → IsLabel label → single_label (some label) ≡ some label
single_label_complete [] h = absurd (h.0 refl)
single_label_complete (c ∷ s) h = rw h.1

sol_label_sound :
    (name label : Text)
    → sol_label name ≡ some label
    → (name ≡ label ++ text ".sol") × IsLabel label
unfolding sol_label
sol_label_sound name label e = elim (Option-cases (strip_suffix (text ".sol") name)) [
  | inl other ↦ absurd (ground arith)
  | inr (front, found) ↦
      let (same, h) = single_label_sound front label (rw found at e) in
      (strip_suffix-eq-some (text ".sol") name front found ∙ ap (λ l. l ++ text ".sol") same, h)
]

sol_label_complete :
    (name label : Text)
    → (name ≡ label ++ text ".sol") × IsLabel label
    → sol_label name ≡ some label
unfolding sol_label
sol_label_complete name label (e, h) =
    rw (e, strip_suffix-append (text ".sol") label) (single_label_complete label h)

-- A name is looked up exactly if it is one label, not empty and without a dot, in front of `.sol`;
-- the label is what stands there.
pub sol_label_iff :
    (name label : Text)
    → (sol_label name ≡ some label) ↔ ((name ≡ label ++ text ".sol") × IsLabel label)
sol_label_iff name label = (sol_label_sound name label, sol_label_complete name label)

-- A name of any other form is answered by `invalid_recipient`, with no request to the network and
-- the tables untouched.
pub resolve_name_malformed :
    (host : Host) (sdk : Sdk) (json : Json) (net : Network json) (base64 : Base64)
    (self : SolanaAdapter sdk) (name : Text) (w : World)
    → ((label : Text) → IsLabel label → name ≢ label ++ text ".sol")
    → resolve_name host sdk json net base64 self name w ≡ (err invalid_recipient, w)
unfolding resolve_name ◌>>=◌
resolve_name_malformed host sdk json net base64 self name w other =
    elim (Option-cases (sol_label name)) [
      | inl malformed ↦ rw malformed
      | inr (label, e) ↦ let (form, h) = sol_label_sound name label e in absurd (other label h form)
    ]
