-- ===== src/Gateway/RateLimit/Budget.antt =====
-- The limiter over all callers.
use xend.Common.{
  ℕ, ◌+◌, ◌*◌, ◌<◌, ◌≤◌, ◌≡◌, ◌≢◌, refl, ◌∙◌, ◌&&◌, List, [], ◌∷◌, Option, none, some, ok, err,
  arith, ltb, leb, if◌then◌else◌, All, Bool-cases, inl, inr,
}
use xend.Common.Text.{Text, text_eq, text_eq_iff, text_eq_refl}
use xend.Gateway.RateLimit.{RateLimiter, Window, lookup, admit, record_request, nanos}
use xend.Gateway.RateLimit.Windows.{lookup-insert}
use xend.Gateway.RateLimit.Admission.{admitted_in, admitted_in-le, Rising, IsPossible, is_ok}

-- Requests in order: the caller and the time of each.
abbrev pub Requests : Type 0
Requests = List (Text × ℕ)

unfoldable pub record_all : RateLimiter → Requests → RateLimiter
record_all limiter [] = limiter
record_all limiter ((k, t) ∷ rest) = record_all (record_request limiter k t).1 rest

-- The requests of `caller` that are admitted at a time in [lo, lo + window).
unfoldable pub admissions : RateLimiter → Text → ℕ → Requests → ℕ
admissions limiter caller lo [] = 0
admissions limiter caller lo ((k, t) ∷ rest) =
    let (verdict, limiter') = record_request limiter k t in
    (if text_eq k caller && (is_ok verdict && (leb lo t && ltb t (lo + limiter.window)))
      then 1
      else 0)
    + admissions limiter' caller lo rest

times_of : Text → Requests → List ℕ
times_of caller [] = []
times_of caller ((k, t) ∷ rest) =
    if text_eq k caller then t ∷ times_of caller rest else times_of caller rest

-- A request of one caller does not change the window of another.
pub lookup-record_request :
    (limiter : RateLimiter) (k j : Text) (t : ℕ)
    → lookup j (record_request limiter k t).1.windows ≡ (
        if text_eq k j
        then some (admit limiter.max limiter.window t (lookup k limiter.windows)).1
        else lookup j limiter.windows)
unfolding record_request
lookup-record_request limiter k j t = lookup-insert k j _ limiter.windows

admissions-eq :
    (limiter : RateLimiter) (caller : Text) (lo : ℕ) (es : Requests)
    → admissions limiter caller lo es
      ≡ admitted_in limiter.max limiter.window lo
          (lookup caller limiter.windows)
          (times_of caller es)
unfolding admissions admitted_in times_of record_request
admissions-eq limiter caller lo [] = refl
admissions-eq limiter caller lo ((k, t) ∷ es) = ground (
  arith,
  text_eq_iff k caller,
  admissions-eq (record_request limiter k t).1 caller lo es,
  lookup-insert k caller (admit limiter.max limiter.window t (lookup k limiter.windows)).1
      limiter.windows,
)

-- The times of a run.
abbrev pub times : Requests → List ℕ
times [] = []
times ((k, t) ∷ rest) = t ∷ times rest

Rising-weaken : (a b : ℕ) (ts : List ℕ) → a ≤ b → Rising b ts → Rising a ts
Rising-weaken a b [] h r = tt
Rising-weaken a b (t ∷ ts) h r = (omega arith, r.1)

Rising-times_of :
    (caller : Text) (now : ℕ) (es : Requests)
    → Rising now (times es)
    → Rising now (times_of caller es)
unfolding times_of
Rising-times_of caller now [] r = tt
Rising-times_of caller now ((k, t) ∷ es) r = elim (Bool-cases (text_eq k caller)) [
  | inl same ↦ rw same (r.0, Rising-times_of caller t es r.1)
  | inr other ↦ rw other (Rising-weaken now t _ r.0 (Rising-times_of caller t es r.1))
]

-- Of any run of requests of any callers, in the order of their times, at most twice `max` of one
-- caller are admitted in an interval that is as long as a window, if its window at the start, where
-- there is one, began by then and is not over full.
pub admissions-le :
    (limiter : RateLimiter) (caller : Text) (lo now : ℕ) (es : Requests)
    → IsPossible limiter.max limiter.window lo now (lookup caller limiter.windows)
    → Rising now (times es)
    → admissions limiter caller lo es ≤ 2 * limiter.max
admissions-le limiter caller lo now es p r = rw admissions-eq (
    admitted_in-le limiter.max limiter.window lo _ now (times_of caller es) p
      (Rising-times_of caller now es r))

lookup-record_all :
    (limiter : RateLimiter) (caller : Text) (es : Requests)
    → All (λ e. e.0 ≢ caller) es
    → lookup caller (record_all limiter es).windows ≡ lookup caller limiter.windows
unfolding record_all
lookup-record_all limiter caller [] h = refl
lookup-record_all limiter caller ((k, t) ∷ es) h =
    lookup-record_all (record_request limiter k t).1 caller es h.1
    ∙ ground (arith, lookup-record_request limiter k caller t, text_eq_iff k caller)

limits-record_all :
    (limiter : RateLimiter) (es : Requests)
    → ((record_all limiter es).max ≡ limiter.max)
      × ((record_all limiter es).window ≡ limiter.window)
unfolding record_all record_request
limits-record_all limiter [] = (refl, refl)
limits-record_all limiter ((k, t) ∷ es) = limits-record_all (record_request limiter k t).1 es

-- The window of a caller did not begin in the future: the clock is monotonic.
abbrev pub HasBegun : ℕ → Option Window → Type 0
HasBegun now none = Unit
HasBegun now (some w) = w.started ≤ now

admit_again :
    (max window now later secs : ℕ) (o : Option Window)
    → 0 < max
    → HasBegun now o
    → (admit max window now o).0 ≡ err secs
    → now + secs * nanos ≤ later
    → (admit max window later (some (admit max window now o).1)).0 ≡ ok tt
unfolding admit
admit_again max window now later secs none pos b e le = absurd (ground arith)
admit_again max window now later secs (some w) pos b e le = ground arith

record_request_verdict :
    (limiter : RateLimiter) (caller : Text) (now : ℕ)
    → (record_request limiter caller now).0
      ≡ (admit limiter.max limiter.window now (lookup caller limiter.windows)).0
unfolding record_request
record_request_verdict limiter caller now = refl

-- A caller that is refused and waits for the seconds that it was told is admitted, whatever other
-- callers do in the meantime, if the limit is not 0 and its window began by the time of the refusal.
pub record_request_after_wait :
    (limiter : RateLimiter) (caller : Text) (now later secs : ℕ) (others : Requests)
    → 0 < limiter.max
    → HasBegun now (lookup caller limiter.windows)
    → (record_request limiter caller now).0 ≡ err secs
    → All (λ e. e.0 ≢ caller) others
    → now + secs * nanos ≤ later
    → (record_request (record_all (record_request limiter caller now).1 others) caller later).0
      ≡ ok tt
record_request_after_wait limiter caller now later secs others pos b e h le =
    let l₁ = (record_request limiter caller now).1 in
    let l₂ = record_all l₁ others in
    let found : lookup caller l₂.windows
        ≡ some (admit limiter.max limiter.window now (lookup caller limiter.windows)).1 =
      lookup-record_all l₁ caller others h
      ∙ lookup-record_request limiter caller caller now
      ∙ rw (text_eq_refl caller) in
    let (m, w) = limits-record_all l₁ others in
    record_request_verdict l₂ caller later
    ∙ rw (found, m, w)
        (unfold record_request in
          admit_again limiter.max limiter.window now later secs _ pos b e le)
