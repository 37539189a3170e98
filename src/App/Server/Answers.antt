-- ===== src/App/Server/Answers.antt =====
-- The answers that a server has given to the submissions of a key.
use xend.Common.{
  ◌≡◌, refl, List, [], ◌∷◌, ◌++◌, All, All-append, Bool-cases, inl, inr, arith, if◌then◌else◌,
}
use xend.Common.Text.{Text, text_eq, text_eq_iff}
use xend.Runtime.Program.{Program, ret, fail, await}
use xend.Runtime.Program.Shared.{Answered, AllAnswered}
use xend.Handlers.Tx.{SubmitRequest}
use xend.Handlers.Requests.{submits}
use xend.App.{Route, liveness, versioned, Answer, Arrival}
use xend.Handlers.Requests.{registers, asks_balance, asks_history, builds, asks_status, resolves}

-- The answer of a program that has ended with one.
abbrev pub answer_of : {A : Type 0} → Program A → List A
answer_of (ret a) = a ∷ []
answer_of (fail e) = []
answer_of (await m k) = []

abbrev given_to : Text → Route → Program Answer → List Answer
given_to key (versioned (submits req)) p =
    if text_eq req.idempotency_key key then answer_of p else []
given_to key other p = []

abbrev pub answers_to : Text → List Arrival → List (Program Answer) → List Answer
answers_to key [] ps = []
answers_to key (a ∷ arrivals) [] = []
answers_to key (a ∷ arrivals) (p ∷ ps) = given_to key a.route p ++ answers_to key arrivals ps

module _ (key : Text) (P : Answer → Type 0) where
  -- What is promised to the submissions of the key.
  abbrev pub Promised : Arrival → Answer → Type 0
  Promised a answer =
      (req : SubmitRequest)
      → a.route ≡ versioned (submits req)
      → req.idempotency_key ≡ key
      → P answer

  answer-All :
      (a : Arrival) (req : SubmitRequest) (p : Program Answer)
      → a.route ≡ versioned (submits req)
      → req.idempotency_key ≡ key
      → Answered (Promised a) p
      → All P (answer_of p)
  answer-All a req (ret answer) e same h = (h req e same, tt)
  answer-All a req (fail x) e same h = tt
  answer-All a req (await m k) e same h = tt

  given-All :
      (a : Arrival) (route : Route) (p : Program Answer)
      → a.route ≡ route
      → Answered (Promised a) p
      → All P (given_to key route p)
  given-All a liveness p e h = tt
  given-All a (versioned (registers req)) p e h = tt
  given-All a (versioned (asks_balance pubkey mint)) p e h = tt
  given-All a (versioned (asks_history pubkey query)) p e h = tt
  given-All a (versioned (builds req)) p e h = tt
  given-All a (versioned (asks_status signature)) p e h = tt
  given-All a (versioned (resolves name)) p e h = tt
  given-All a (versioned (submits req)) p e h =
      elim (Bool-cases (text_eq req.idempotency_key key)) [
        | inl same ↦
            rw same (answer-All a req p e (ground (arith, text_eq_iff req.idempotency_key key)) h)
        | inr other ↦ rw other tt
      ]

  -- What is promised holds of the answers to the submissions of the key.
  pub answers_to-All :
      (arrivals : List Arrival) (ps : List (Program Answer))
      → AllAnswered Promised arrivals ps
      → All P (answers_to key arrivals ps)
  answers_to-All [] ps h = tt
  answers_to-All (a ∷ arrivals) [] h = tt
  answers_to-All (a ∷ arrivals) (p ∷ ps) (first, rest) =
      All-append P _ _ (given-All a a.route p refl first) (answers_to-All arrivals ps rest)
