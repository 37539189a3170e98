-- ===== src/Gateway/RateLimit/Admission.antt =====
-- One caller: how many requests are admitted, and when to come again.
use xend.Common.{
  ℕ, ◌+◌, ◌*◌, ◌≤◌, ◌≡◌, refl, Bool, true, false, ◌&&◌, List, [], ◌∷◌, Option, none, some, Result,
  ok, err, arith, ltb, leb, Bool-cases, inl, inr, if◌then◌else◌,
}
use xend.Gateway.RateLimit.{Window, admit}

abbrev pub is_ok : Result (Unit {0}) ℕ → Bool
is_ok (ok u) = true
is_ok (err n) = false

-- The requests of one caller at the given times that are admitted at a time in [lo, lo + window).
unfoldable pub admitted_in : ℕ → ℕ → ℕ → Option Window → List ℕ → ℕ
admitted_in max window lo o [] = 0
admitted_in max window lo o (t ∷ ts) =
    let (verdict, w) = admit max window t o in
    (if is_ok verdict && (leb lo t && ltb t (lo + window)) then 1 else 0)
    + admitted_in max window lo (some w) ts

-- Times that do not fall, from one on.
abbrev pub Rising : ℕ → List ℕ → Type 0
Rising now [] = Unit
Rising now (t ∷ ts) = (now ≤ t) × Rising t ts

module _ (max window lo : ℕ) where
  -- Past the interval nothing counts.
  admitted_late :
      (o : Option Window) (now : ℕ) (ts : List ℕ)
      → lo + window ≤ now
      → Rising now ts
      → admitted_in max window lo o ts ≡ 0
  unfolding admitted_in
  admitted_late o now [] h r = refl
  admitted_late o now (t ∷ ts) h r =
      ground (arith, admitted_late (some (admit max window t o).1) t ts)

  -- A window that began in the interval is its last.
  admitted_last :
      (w : Window) (now : ℕ) (ts : List ℕ)
      → lo ≤ w.started
      → w.started ≤ now
      → w.count ≤ max
      → Rising now ts
      → admitted_in max window lo (some w) ts + w.count ≤ max
  unfolding admitted_in admit
  admitted_last w now [] h s c r = omega arith
  admitted_last w now (t ∷ ts) h s c r = ground (
    arith,
    admitted_late (some (admit max window t (some w)).1) t ts,
    admitted_last (record w { count = w.count + 1 }) t ts,
    admitted_last w t ts,
  )

  -- From a time in the interval on, what is left of the window that is open and one more.
  admitted_two :
      (w : Window) (now : ℕ) (ts : List ℕ)
      → lo ≤ now
      → w.started ≤ now
      → w.count ≤ max
      → Rising now ts
      → admitted_in max window lo (some w) ts + w.count ≤ 2 * max
  unfolding admitted_in admit
  admitted_two w now [] h s c r = omega arith
  admitted_two w now (t ∷ ts) h s c r = ground (
    arith,
    admitted_last (record { started = t; count = 1 }) t ts,
    admitted_last (record { started = t; count = 0 }) t ts,
    admitted_two (record w { count = w.count + 1 }) t ts,
    admitted_two w t ts,
  )

  -- A window is possible at a time: it began before, and is not over full.
  abbrev pub IsPossible : ℕ → Option Window → Type 0
  IsPossible now none = Unit
  IsPossible now (some w) = (w.started ≤ now) × (w.count ≤ max)

  admit-IsPossible :
      (o : Option Window) (now t : ℕ)
      → now ≤ t
      → IsPossible now o
      → IsPossible t (some (admit max window t o).1)
  unfolding admit
  admit-IsPossible none now t h p = ground arith
  admit-IsPossible (some w) now t h p = ground arith

  admitted_from :
      (o : Option Window) (now t : ℕ) (ts : List ℕ)
      → lo ≤ t
      → now ≤ t
      → IsPossible now o
      → Rising t ts
      → admitted_in max window lo o (t ∷ ts) ≤ 2 * max
  unfolding admitted_in admit
  admitted_from none now t ts h k p r = omega (
    arith,
    admitted_two (record { started = t; count = 0 }) t (t ∷ ts) h (omega arith) (omega arith)
        (omega arith, r),
  )
  admitted_from (some w) now t ts h k p r =
      omega (arith, admitted_two w t (t ∷ ts) h (omega arith) p.1 (omega arith, r))

  -- Whatever the window is at first, at most twice `max` requests of one caller are admitted in any
  -- interval that is as long as a window.
  pub admitted_in-le :
      (o : Option Window) (now : ℕ) (ts : List ℕ)
      → IsPossible now o
      → Rising now ts
      → admitted_in max window lo o ts ≤ 2 * max
  unfolding admitted_in
  admitted_in-le o now [] p r = omega arith
  admitted_in-le o now (t ∷ ts) p r = elim (Bool-cases (leb lo t)) [
    | inl inside ↦ admitted_from o now t ts (ground arith) r.0 p r.1
    | inr early ↦
        ground (
          arith,
          admit-IsPossible o now t r.0 p,
          admitted_in-le (some (admit max window t o).1) t ts,
        )
  ]
