-- ===== src/Gateway/RateLimit.antt =====
-- backend/src/gateway/rate_limit.rs. Durations and instants are in nanoseconds.
pub mod Windows
pub mod Admission
pub mod Budget
use xend.Common.{
  ℕ, suc, ◌+◌, ◌-◌, ◌/◌, Bool, true, false, List, [], ◌∷◌, Option, none, some, Result, ok, err, ltb,
  leb, if◌then◌else◌,
}
use xend.Common.Text.{Text, text_eq}

-- `Instant`s come from a monotonic clock, and `duration_since` stops at 0.
pub record Window : Type 0 where
  pub started : ℕ
  pub count : ℕ

abbrev pub Windows : Type 0
Windows = List (Text × Window)

pub record RateLimiter : Type 0 where
  pub max : ℕ
  pub window : ℕ
  pub windows : Windows

unfoldable pub new : ℕ → ℕ → RateLimiter
new max window = record { max = max; window = window; windows = [] }

-- The hash map: its entry for a key, and the map with the entry written.
unfoldable pub lookup : Text → Windows → Option Window
lookup caller [] = none
lookup caller ((k, w) ∷ rest) = if text_eq k caller then some w else lookup caller rest

unfoldable pub insert : Text → Window → Windows → Windows
insert caller w [] = (caller, w) ∷ []
insert caller w ((k, v) ∷ rest) =
    if text_eq k caller then (k, w) ∷ rest else (k, v) ∷ insert caller w rest

-- `entry(caller).or_insert(..)`.
abbrev pub entry_or : ℕ → Option Window → Window
entry_or now none = record { started = now; count = 0 }
entry_or now (some w) = w

-- The window starts again when it is over.
unfoldable pub refresh : ℕ → ℕ → Window → Window
refresh window now w =
    if leb window (now - w.started) then record { started = now; count = 0 } else w

abbrev pub nanos : ℕ
nanos = 1000000000

-- One request in a window that is current: the verdict, with the seconds to wait, and the window.
unfoldable pub charge : ℕ → ℕ → ℕ → Window → Result (Unit {0}) ℕ × Window
charge max window now w =
    if leb max w.count
    then (err ((window - (now - w.started)) / nanos + 1), w)
    else (ok tt, record w { count = w.count + 1 })

unfoldable pub admit : ℕ → ℕ → ℕ → Option Window → Result (Unit {0}) ℕ × Window
unfolding refresh charge
admit max window now o = charge max window now (refresh window now (entry_or now o))

-- `record`, at the time `now`.
unfoldable pub record_request : RateLimiter → Text → ℕ → Result (Unit {0}) ℕ × RateLimiter
unfolding lookup insert
record_request limiter caller now =
    let (verdict, w) = admit limiter.max limiter.window now (lookup caller limiter.windows) in
    (verdict, record limiter { windows = insert caller w limiter.windows })
