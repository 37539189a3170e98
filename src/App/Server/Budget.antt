-- ===== src/App/Server/Budget.antt =====
-- How many transactions the requests of one caller can make a server send in a minute, whatever
-- waits in between.
use mathlib.Core.Path.{subst}
use xend.Common.{
  ℕ, ◌+◌, ◌-◌, ◌*◌, ◌≤◌, ◌≡◌, refl, sym, ◌∙◌, Bool, true, false, ◌&&◌, List, [], ◌∷◌, if◌then◌else◌,
  Result, ok, err, inl, inr, arith, leb, ltb, Bool-cases,
}
use xend.Common.Text.{Text, text_eq}
use xend.Runtime.{World, Host}
use xend.Runtime.Sends.{sends}
use xend.Runtime.Program.Spends.{SpendsWithin, SpendsWithin-mono}
use xend.Runtime.Program.Owed.{Owed, counted_at, turn-Owed, append-Owed}
use xend.Runtime.Program.Maps.{map-SpendsWithin}
use xend.Chain.Adapter.{ChainAdapter}
use xend.Chain.Adapter.Laws.{SendsOnBroadcast}
use xend.Gateway.{Headers}
use xend.Gateway.Auth.{is_authorized}
use xend.Gateway.RateLimit.{RateLimiter, record_request, new, nanos, lookup}
use xend.Gateway.RateLimit.Admission.{Rising, is_ok}
use xend.Gateway.RateLimit.Budget.{times, admissions, admissions-le}
use xend.Gateway.Router.{caller_of}
use xend.Handlers.Requests.{Request, Codecs}
use xend.Handlers.Requests.Awaits.Rules.{is_submission}
use xend.Handlers.Requests.Awaits.Spends.{respond-SpendsWithin}
use xend.Startup.{Environment, from_env}
use xend.App.{Route, liveness, versioned, Arrival, started_with}
use xend.App.Budget.{metered, counts}
use xend.App.Server.{
  Event, arrives, continues, System, started, arrivals_in, handler_program, authorized_program,
  limited_program, routes_program, happen,
}

at_most_one : (b : Bool) → (if b then 1 else 0) ≤ 1
at_most_one true = omega arith
at_most_one false = omega arith

counted_le :
    (same inside admitted : Bool)
    → (if same && inside then (if admitted then 1 else 0) else 0)
      ≤ (if same && (admitted && inside) then 1 else 0)
counted_le same inside admitted = ground arith

window_stays :
    (limiter : RateLimiter) (k : Text) (t : ℕ)
    → (record_request limiter k t).1.window ≡ limiter.window
unfolding record_request
window_stays limiter k t = refl

zero_either : (b : Bool) → (if b then 0 else 0) ≤ 0
zero_either true = omega arith
zero_either false = omega arith

module _ (host : Host) (codecs : Codecs) (chain : ChainAdapter) where
  module _ (keys : List Text) where
    abbrev event_counts : Text → ℕ → Event → System → Bool
    event_counts caller lo (arrives a) s = false
    event_counts caller lo (continues i) s = counted_at (counts caller lo) i s.arrivals

    -- How many transactions are sent in the turns of the requests of `caller` that arrive in the
    -- minute from `lo`.
    unfoldable pub sent_in_turns : Text → ℕ → List Event → System → ℕ
    sent_in_turns caller lo [] s = 0
    sent_in_turns caller lo (e ∷ rest) s =
        let s' = happen host codecs chain keys e s in
        (if event_counts caller lo e s then sends s'.world.sent - sends s.world.sent else 0)
        + sent_in_turns caller lo rest s'

  module _ (law : SendsOnBroadcast chain) where
    limited-SpendsWithin :
        (verdict : Result (Unit {0}) ℕ) (keys : List Text) (r : Request) (headers : Headers)
        → SpendsWithin
            (limited_program host codecs chain verdict keys r headers)
            (if is_ok verdict then 1 else 0)
    unfolding limited_program authorized_program handler_program
    limited-SpendsWithin (ok u) keys r headers =
        elim (Bool-cases (is_authorized keys headers.authorization)) [
          | inl valid ↦ rw valid (
              map-SpendsWithin _ 1 _ (
                SpendsWithin-mono _ 1 _ (at_most_one (is_submission r))
                  (respond-SpendsWithin host codecs chain law r)))
          | inr invalid ↦ rw invalid tt
        ]
    limited-SpendsWithin (err secs) keys r headers = tt

    module _ (keys : List Text) (caller : Text) (lo : ℕ) where
      abbrev Within : System → ℕ → Type 0
      Within s n = Owed (counts caller lo) s.arrivals s.programs n

      -- The rest of a run, after the first event.
      abbrev Bounded : List Event → Type 1
      Bounded rest =
          (n : ℕ) (s : System)
          → s.limiter.window ≡ 60 * nanos
          → Within s n
          → sent_in_turns keys caller lo rest s
            ≤ n + admissions s.limiter caller lo (metered (arrivals_in rest))

      arrival-Bounded :
          (route : Route) (headers : Headers) (now : ℕ) (fresh : Text) (rest : List Event)
          → Bounded rest
          → (n : ℕ) (s : System) → s.limiter.window ≡ 60 * nanos
          → Within s n
          → let a : Arrival = record {
            route = route;
            headers = headers;
            now = now;
            fresh = fresh;
          } in
            sent_in_turns keys caller lo (arrives a ∷ rest) s
            ≤ n + admissions s.limiter caller lo (metered (arrivals_in (arrives a ∷ rest)))
      unfolding sent_in_turns happen routes_program admissions
      arrival-Bounded liveness headers now fresh rest ih n s h o =
          let a : Arrival = record {
            route = liveness;
            headers = headers;
            now = now;
            fresh = fresh;
          } in
          omega (
            arith,
            ih (0 + n) (happen host codecs chain keys (arrives a) s) h (
                append-Owed (counts caller lo) 0 0 n s.arrivals s.programs a _
                  (zero_either (counts caller lo a)) tt o),
          )
      arrival-Bounded (versioned r) headers now fresh rest ih n s h o =
          let a : Arrival = record {
            route = versioned r;
            headers = headers;
            now = now;
            fresh = fresh;
          } in
          let verdict = (record_request s.limiter (caller_of headers) now).0 in
          let same = text_eq (caller_of headers) caller in
          let inside = λ (x : ℕ). leb lo now && ltb now (lo + x) in
          let one : ℕ = if same && (is_ok verdict && inside s.limiter.window) then 1 else 0 in
          let fits : (if counts caller lo a then (if is_ok verdict then 1 else 0) else 0) ≤ one =
            subst
              (λ x.
                (if same && inside (60 * nanos) then (if is_ok verdict then 1 else 0) else 0)
                ≤ (if same && (is_ok verdict && inside x) then 1 else 0))
              (sym h) (counted_le same (inside (60 * nanos)) (is_ok verdict)) in
          omega (
            arith,
            ih (one + n) (happen host codecs chain keys (arrives a) s)
                (window_stays s.limiter (caller_of headers) now ∙ h)
                (append-Owed (counts caller lo) (if is_ok verdict then 1 else 0) one n s.arrivals
                  s.programs a _ fits (limited-SpendsWithin verdict keys r headers) o),
          )

      sent_in_turns-admissions : (events : List Event) → Bounded events
      unfolding sent_in_turns happen
      sent_in_turns-admissions [] n s h o = omega arith
      sent_in_turns-admissions (arrives a ∷ rest) n s h o =
          arrival-Bounded a.route a.headers a.now a.fresh rest (sent_in_turns-admissions rest) n s h
            o
      sent_in_turns-admissions (continues i ∷ rest) n s h o =
          let (paid, left, bound, pays, o') =
            turn-Owed (counts caller lo) i n s.arrivals s.programs s.world o in
          omega (
            arith,
            bound,
            pays,
            sent_in_turns-admissions rest left (happen host codecs chain keys (continues i) s) h o',
          )

      -- Of all the requests that a server answers from its start, those of one caller that arrive in
      -- a minute send 240 transactions at most, whatever the environment is, whatever the requests
      -- ask for and in whatever order their awaits come, if the adapter sends only on a broadcast and
      -- the limiter's clock does not go back from one arrival to the next.
      pub sent_in_turns-le :
          (env : Environment) (w : World) (events : List Event)
          → Rising 0 (times (metered (arrivals_in events)))
          → sent_in_turns keys caller lo events (started (started_with (from_env env) w)) ≤ 240
      unfolding started_with from_env new lookup
      sent_in_turns-le env w events rising =
          let limiter = new 120 (60 * nanos) in
          omega (
            arith,
            sent_in_turns-admissions events 0 (started (limiter, w)) refl tt,
            admissions-le limiter caller lo 0 (metered (arrivals_in events)) tt rising,
          )
