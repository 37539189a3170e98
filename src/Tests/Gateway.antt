-- ===== src/Tests/Gateway.antt =====
-- Runs of the gateway, and of the error responses, on concrete requests.
use xend.Common.{
  ℕ, suc, ◌+◌, ◌*◌, ◌≤◌, ◌<◌, ◌≡◌, ◌≢◌, ◌↔◌, refl, List, [], ◌∷◌, ◌++◌, none, some, ok, err, true,
  false, arith,
}
use xend.Common.Text.{
  Text, text, text_eq, strip_prefix, trim, trim_start, trim_end, is_whitespace, split,
}
use xend.Error.{database, internal, into_response}
use xend.Error.Response.{into_response_hides}
use xend.Gateway.{Headers}
use xend.Gateway.Auth.{is_authorized, parse_api_keys, has_member}
use xend.Gateway.Auth.Keys.{is_authorized_iff}
use xend.Gateway.RateLimit.{
  RateLimiter, new, lookup, insert, refresh, charge, admit, record_request, nanos,
}
use xend.Gateway.RateLimit.Admission.{IsPossible, Rising}
use xend.Gateway.RateLimit.Budget.{
  Requests, times, HasBegun, admissions, record_all, admissions-le, record_request_after_wait,
}
use xend.Gateway.Router.{Handler, api, enforce, require_api_key}

-- Two requests in a minute.
abbrev limiter : RateLimiter
limiter = new 2 (60 * nanos)

abbrev caller : Text
caller = text "Bearer k"

abbrev run : Requests
run = (caller, 1) ∷ (text "other", 2) ∷ (caller, 3) ∷ (caller, 4) ∷ (caller, 70 * nanos) ∷ []

no_window : lookup caller limiter.windows ≡ none
unfolding new lookup
no_window = refl

window-IsPossible : IsPossible limiter.max limiter.window 0 0 (lookup caller limiter.windows)
unfolding new lookup
window-IsPossible = tt

run-Rising : Rising 0 (times run)
run-Rising = (omega arith, (omega arith, (omega arith, (omega arith, (omega arith, tt)))))

admissions-le_example : admissions limiter caller 0 run ≤ 2 * limiter.max
admissions-le_example = admissions-le limiter caller 0 0 run window-IsPossible run-Rising

-- The limiter after two admitted requests.
abbrev used_up : RateLimiter
used_up = record_all limiter ((caller, 1) ∷ (caller, 2) ∷ [])

used_up_pos : 0 < used_up.max
unfolding record_all record_request new
used_up_pos = omega arith

used_up_begun : HasBegun 3 (lookup caller used_up.windows)
unfolding record_all record_request new lookup insert refresh charge admit text text_eq
used_up_begun = omega arith

refused : (record_request used_up caller 3).0 ≡ err 60
unfolding record_all record_request new lookup insert refresh charge admit text text_eq
refused = refl

other_caller : text "other" ≢ caller
unfolding text
other_caller e = absurd (ground arith)

record_request_after_wait_example :
    (record_request
      (record_all (record_request used_up caller 3).1 ((text "other", 9) ∷ []))
      caller
      (60 * nanos + 3)).0
    ≡ ok tt
record_request_after_wait_example =
    record_request_after_wait used_up caller 3 (60 * nanos + 3) 60 ((text "other", 9) ∷ [])
      used_up_pos used_up_begun refused (other_caller, tt) (omega arith)

abbrev keys : List Text
keys = text "k" ∷ []

abbrev handler : Handler ℕ ℕ
handler request s = (ok 7, suc s)

abbrev anonymous : Headers
anonymous = record { authorization = none; x_request_id = none }

abbrev authorized : Headers
authorized = record { authorization = some caller; x_request_id = none }

refuses_anonymous : is_authorized keys none ≡ false
unfolding is_authorized
refuses_anonymous = refl

lets_through : (api 5 keys handler authorized (limiter, 0)).0 ≡ ok 7
unfolding api enforce require_api_key record_request new lookup insert refresh charge admit
    is_authorized strip_prefix trim trim_start trim_end is_whitespace text text_eq
lets_through = refl

is_authorized_iff_example : (is_authorized (text "k" ∷ []) (some caller) ≡ true) ↔ (
    (rest : Text) × (some caller ≡ some (text "Bearer " ++ rest))
    × (has_member (text "k" ∷ []) (trim rest) ≡ true))
is_authorized_iff_example = is_authorized_iff (text "k") [] (some caller)

read_key : has_member (parse_api_keys (text "a, k ,")) (text "k") ≡ true
unfolding parse_api_keys split trim trim_start trim_end is_whitespace text text_eq
read_key = refl

into_response_hides_example :
    into_response (database (text "host=db")) ≡ into_response (internal (text "panic"))
into_response_hides_example =
    into_response_hides (database (text "host=db")) (internal (text "panic")) tt tt
