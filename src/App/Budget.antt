-- ===== src/App/Budget.antt =====
-- How many transactions the requests of one caller can make a process send in a minute.
use mathlib.Core.Path.{subst}
use xend.Common.{
  ℕ, ◌+◌, ◌-◌, ◌*◌, ◌≤◌, ◌≡◌, refl, sym, ap, ◌∙◌, Bool, ◌&&◌, List, [], ◌∷◌, if◌then◌else◌, inl,
  inr, arith, leb, ltb, Result-cases, Bool-cases,
}
use xend.Common.Text.{Text, text_eq}
use xend.Runtime.{World, Host}
use xend.Runtime.Moves.{Moves-pure}
use xend.Runtime.Sends.{
  sends, SendsAtMost, SendsAtMost-bind, SendsAtMost_of_SameSends, SameSends-IsPreorder,
}
use xend.Chain.Adapter.{ChainAdapter}
use xend.Chain.Adapter.Laws.{SendsOnBroadcast}
use xend.Gateway.{Headers}
use xend.Gateway.Auth.{is_authorized}
use xend.Gateway.RateLimit.{RateLimiter, record_request, new, nanos, lookup}
use xend.Gateway.RateLimit.Admission.{Rising, is_ok}
use xend.Gateway.RateLimit.Budget.{Requests, times, admissions, admissions-le}
use xend.Gateway.Router.{api, propagate, caller_of}
use xend.Handlers.Requests.{Request, Codecs}
use xend.Handlers.Requests.Sends.{respond-SendsAtMost}
use xend.Startup.{Environment, from_env}
use xend.App.{Route, Arrival, State, liveness, versioned, handler, router, routes, started_with}

abbrev metered_as : Route → Text × ℕ → Requests → Requests
metered_as liveness e rest = rest
metered_as (versioned r) e rest = e ∷ rest

-- The requests that the limiter sees.
abbrev pub metered : List Arrival → Requests
metered [] = []
metered (a ∷ rest) = metered_as a.route (caller_of a.headers, a.now) (metered rest)

abbrev pub counts : Text → ℕ → Arrival → Bool
counts caller lo a =
    text_eq (caller_of a.headers) caller && (leb lo a.now && ltb a.now (lo + 60 * nanos))

counted_le :
    (same inside inside' admitted : Bool) (after before n m : ℕ)
    → after ≤ (if admitted then 1 else 0) + before
    → n ≤ m
    → inside ≡ inside'
    → (if same && inside then after - before else 0) + n
      ≤ (if same && (admitted && inside') then 1 else 0) + m
counted_le same inside inside' admitted after before n m h k e = ground arith

module _ (host : Host) (codecs : Codecs) (chain : ChainAdapter) where
  module _ (is_header_value : Text → Bool) (keys : List Text) where
    -- How many transactions are sent for the requests of `caller` that arrive in the minute from `lo`.
    unfoldable pub sent_for : Text → ℕ → List Arrival → State → ℕ
    sent_for caller lo [] s = 0
    sent_for caller lo (a ∷ rest) s =
        let s' = (router host codecs chain is_header_value keys a s).1 in
        (if counts caller lo a then sends s'.1.sent - sends s.1.sent else 0)
        + sent_for caller lo rest s'

  module _ (law : SendsOnBroadcast chain) where
    handler-SendsAtMost :
        (r : Request) (headers : Headers) → SendsAtMost 1 (handler host codecs chain r headers)
    unfolding handler
    handler-SendsAtMost r headers =
        SendsAtMost-bind 1 0 _ _ (respond-SendsAtMost host codecs chain law r)
          λ response. SendsAtMost_of_SameSends _ (Moves-pure SameSends-IsPreorder _)

    -- A request under `/v1` sends one transaction at most, and none if the limiter refuses it.
    api-sends :
        (now : ℕ) (keys : List Text) (r : Request) (headers : Headers) (s : State)
        → let s' = (api now keys (handler host codecs chain r) headers s).1 in
          (s'.0 ≡ (record_request s.0 (caller_of headers) now).1)
          × (sends s'.1.sent
              ≤ (if is_ok (record_request s.0 (caller_of headers) now).0 then 1 else 0)
                + sends s.1.sent)
    unfolding api
    api-sends now keys r headers s =
        elim (Result-cases (record_request s.0 (caller_of headers) now).0) [
          | inl (u, within) ↦ elim (Bool-cases (is_authorized keys headers.authorization)) [
            | inl valid ↦ rw (within, valid) (refl, (handler-SendsAtMost r headers).at s.1)
            | inr invalid ↦ rw (within, invalid) (refl, omega arith)
          ]
          | inr (secs, over) ↦ rw over (refl, omega arith)
        ]

    window-record_request :
        (limiter : RateLimiter) (k : Text) (t : ℕ)
        → (record_request limiter k t).1.window ≡ limiter.window
    unfolding record_request
    window-record_request limiter k t = refl

    module _ (is_header_value : Text → Bool) (keys : List Text) (caller : Text) (lo : ℕ) where
      sent_for_next :
          (route : Route) (headers : Headers) (now : ℕ) (fresh : Text) (rest : List Arrival)
          → ((s : State)
              → s.0.window ≡ 60 * nanos
              → sent_for is_header_value keys caller lo rest s
                ≤ admissions s.0 caller lo (metered rest))
          → (s : State) → s.0.window ≡ 60 * nanos
          → let a : Arrival = record {
            route = route;
            headers = headers;
            now = now;
            fresh = fresh;
          } in
            sent_for is_header_value keys caller lo (a ∷ rest) s
            ≤ admissions s.0 caller lo (metered (a ∷ rest))
      unfolding sent_for router propagate routes admissions
      sent_for_next liveness headers now fresh rest ih s h = ground (arith, ih s h)
      sent_for_next (versioned r) headers now fresh rest ih s h =
          let (l, n) = api-sends now keys r headers s in
          let s' = (api now keys (handler host codecs chain r) headers s).1 in
          let next = ih s' (
            ap (λ (x : RateLimiter). x.window) l
            ∙ window-record_request s.0 (caller_of headers) now
            ∙ h) in
          let t = text_eq (caller_of headers) caller in
          let rest' = sent_for is_header_value keys caller lo rest s' in
          counted_le t _ _ _ _ _ rest' _ n
            (subst (λ (x : RateLimiter). rest' ≤ admissions x caller lo (metered rest)) l next)
            (ap (λ x. leb lo now && ltb now (lo + x)) (sym h))

      -- What is sent for the caller is at most what the limiter admits of it.
      sent_for-admissions :
          (arrivals : List Arrival) (s : State)
          → s.0.window ≡ 60 * nanos
          → sent_for is_header_value keys caller lo arrivals s
            ≤ admissions s.0 caller lo (metered arrivals)
      unfolding sent_for
      sent_for-admissions [] s h = omega arith
      sent_for-admissions (a ∷ rest) s h =
          sent_for_next a.route a.headers a.now a.fresh rest (sent_for-admissions rest) s h

      -- Of all the requests that a process answers one after the other from its start, those of one
      -- caller that arrive in a minute send 240 transactions at most, whatever the environment is and
      -- whatever the requests ask for, if the adapter sends only on a broadcast and the limiter's clock
      -- does not go back.
      sent_for-le :
          (env : Environment) (w : World) (arrivals : List Arrival)
          → Rising 0 (times (metered arrivals))
          → sent_for is_header_value keys caller lo arrivals (started_with (from_env env) w) ≤ 240
      unfolding started_with from_env new lookup
      sent_for-le env w arrivals rising =
          let limiter = new 120 (60 * nanos) in
          omega (
            arith,
            sent_for-admissions arrivals (limiter, w) refl,
            admissions-le limiter caller lo 0 (metered arrivals) tt rising,
          )
