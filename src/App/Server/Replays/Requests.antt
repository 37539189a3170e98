-- ===== src/App/Server/Replays/Requests.antt =====
-- What each request does to a recorded key.
use mathlib.Core.Path.{subst}
use xend.Common.{
  ◌≡◌, ◌≢◌, sym, ap, ◌∙◌, false, Bool-cases, inl, inr, List, some, arith, if◌then◌else◌,
}
use xend.Common.Text.{Text, text_eq, text_eq_iff, text_eq_refl}
use xend.Runtime.{World, Host}
use xend.Runtime.Program.Costs.{Costs, Costs-Safe, map-Costs}
use xend.Runtime.Program.Awaits.{EachMoves, EachMoves-Safe}
use xend.Runtime.Program.Maps.{map-EachMoves, map-SpendsWithin}
use xend.Store.{Transaction}
use xend.Chain.Adapter.{ChainAdapter}
use xend.Chain.Adapter.Laws.{LeavesTables, SendsOnBroadcast}
use xend.Handlers.Tx.{SubmitRequest}
use xend.Handlers.Tx.Awaits.{submit_program}
use xend.Handlers.Tx.Awaits.Rules.{submit-EachMoves}
use xend.Handlers.Requests.{Request, submits, submitted, Codecs}
use xend.Handlers.Requests.Awaits.{respond_program}
use xend.Handlers.Requests.Awaits.Rows.{KeepsRows, row_rules}
use xend.Handlers.Requests.Awaits.Rules.{is_submission, submission-cases, other-EachMoves}
use xend.Handlers.Requests.Awaits.Spends.{respond-SpendsWithin}
use xend.App.{versioned, Answer, responds, Arrival}
use xend.App.Server.{handler_program}
use xend.App.Server.Replays.{
  HasRow, RowStays, Told, Recalls, request_price, submit_rules, decoded-Costs,
}
use xend.App.Server.Race.{route_key, route_submits}

module _ (key signature : Text) (row : Transaction) where
  abbrev Rows : List Transaction → Type 0
  Rows = HasRow key row

  abbrev I : World → Type 0
  I = RowStays key row

  abbrev Says : Arrival → Answer → Type 0
  Says = Told key signature row

  module _ (is_signed : row.signature ≡ some signature) (host : Host) (codecs : Codecs)
      (chain : ChainAdapter) (law : LeavesTables chain) (sending : SendsOnBroadcast chain) where
    -- A submission of the key.
    same-Costs :
        (a : Arrival) (req : SubmitRequest)
        → req.idempotency_key ≡ key
        → Costs I (Says a) (handler_program host codecs chain (submits req)) 0
    unfolding handler_program respond_program submit_program
    same-Costs a req same =
        map-Costs responds I (λ response. Says a (responds response)) (Says a) 0 _
          (λ response told. told)
          (map-Costs submitted I (Recalls signature row) (λ response. Says a (responds response)) 0
            _ (λ r recalls req' e k. ap (λ x. responds (submitted x)) recalls)
            (decoded-Costs key signature row host codecs chain law req
              (codecs.base64.decode req.signed) is_signed same))

    -- A request whose program leaves the row, and which is no submission of the key.
    leaving-Costs :
        (a : Arrival) (r : Request)
        → ((answer : Answer) → Says a answer)
        → EachMoves (KeepsRows Rows) (respond_program host codecs chain r)
        → Costs I (Says a) (handler_program host codecs chain r) (if is_submission r then 1 else 0)
    unfolding handler_program
    leaving-Costs a r told each =
        Costs-Safe I (Says a) _ _
          (EachMoves-Safe I (Says a) _ told (map-EachMoves responds (KeepsRows Rows) _ each))
          (map-SpendsWithin responds _ _ (respond-SpendsWithin host codecs chain sending r))

    different-Costs :
        (a : Arrival) (req : SubmitRequest)
        → a.route ≡ versioned (submits req)
        → req.idempotency_key ≢ key
        → Costs I (Says a) (handler_program host codecs chain (submits req)) 1
    unfolding respond_program
    different-Costs a req e ne =
        leaving-Costs a (submits req)
          (λ answer req' e' k. absurd (ne (ap route_key (sym e ∙ e') ∙ k)))
          (map-EachMoves submitted (KeepsRows Rows) _ (
            submit-EachMoves host codecs.base64 chain (KeepsRows Rows) req
              (submit_rules key signature row host codecs chain law req.idempotency_key ne)))

    other-Costs :
        (a : Arrival) (r : Request)
        → a.route ≡ versioned r
        → is_submission r ≡ false
        → Costs I (Says a) (handler_program host codecs chain r) 0
    other-Costs a r e other =
        subst (λ b. Costs I (Says a) (handler_program host codecs chain r) (if b then 1 else 0))
          other
          (leaving-Costs a r
            (λ answer req e' k. absurd (ground (arith, sym other ∙ ap route_submits (sym e ∙ e'))))
            (other-EachMoves host codecs chain (KeepsRows Rows) (row_rules Rows host chain law) r
              other))

    submission-Costs :
        (a : Arrival) (req : SubmitRequest)
        → a.route ≡ versioned (submits req)
        → Costs I
            (Says a)
            (handler_program host codecs chain (submits req))
            (request_price key (submits req))
    submission-Costs a req e = elim (Bool-cases (text_eq req.idempotency_key key)) [
      | inl same ↦ rw same (same-Costs a req (ground (arith, text_eq_iff req.idempotency_key key)))
      | inr other ↦ rw other (
          different-Costs a req e (λ p.
            absurd (ground (arith, sym other ∙ (ap (λ k. text_eq k key) p ∙ text_eq_refl key)))))
    ]

    other_price : (r : Request) → is_submission r ≡ false → request_price key r ≡ 0
    other_price r other = ground arith

    pub request-Costs :
        (a : Arrival) (r : Request)
        → a.route ≡ versioned r
        → Costs I (Says a) (handler_program host codecs chain r) (request_price key r)
    request-Costs a r e = elim (submission-cases r) [
      | inl (req, p) ↦
          subst (λ x. Costs I (Says a) (handler_program host codecs chain x) (request_price key x))
            (sym p) (submission-Costs a req (e ∙ ap versioned p))
      | inr other ↦
          subst (Costs I (Says a) (handler_program host codecs chain r)) (sym (other_price r other))
            (other-Costs a r e other)
    ]
