-- ===== src/Startup/Process/Order.antt =====
-- What a process has done when it serves.
use xend.Common.{
  ◌≡◌, refl, sym, Bool, true, false, any, List, [], ◌∷◌, none, some, Result, ok, err, arith,
  Result-cases, Option-cases, inl, inr,
}
use mathlib.Core.Path.{subst}
use xend.Common.Text.{Text, text, trim}
use xend.Chain.Solana.Sdk.{Sdk}
use xend.Startup.{Environment, Keypairs, Settings, settings, fee_payer}
use xend.Startup.Process.{
  Call, connects, migrates, binds, serves, Stop, panicked, Libraries, connect, main_with, main,
  max_connections, reported, perform, pure, stop, ◌>>=◌,
}

abbrev pub is_serves : Call → Bool
is_serves serves = true
is_serves other = false

-- The calls of a process that serves.
abbrev pub calls_of : {sdk : Sdk} → Settings sdk → List Call
calls_of s = connects max_connections s.db_url ∷ migrates ∷ binds s.addr ∷ serves ∷ []

module _ (sdk : Sdk) {Pool Listener : Type 0} (libraries : Libraries sdk Pool Listener) where
  -- The process serves, with what it has built before.
  pub record Serves (s : Settings sdk) (result : Result (Unit {0}) Stop) (calls : List Call)
      : Type 0 where
    pub pool : Pool
    pub listener : Listener
    pub connected : libraries.connect max_connections s.db_url ≡ ok pool
    pub migrated : libraries.migrate pool ≡ ok tt
    pub bound : libraries.bind s.addr ≡ ok listener
    pub in_order : calls ≡ calls_of s
    pub result_of :
        result
        ≡ reported (libraries.serve listener (record { pool = pool; chain = s.adapter }) s.gateway)

  main_with-Serves :
      (s : Settings sdk)
      → any is_serves (main_with sdk libraries s []).1 ≡ true
      → Serves s (main_with sdk libraries s []).0 (main_with sdk libraries s []).1
  unfolding main_with connect ◌>>=◌ perform pure
  main_with-Serves s h = elim (Result-cases (libraries.connect max_connections s.db_url)) [
    | inl (pool, connected) ↦ elim (Result-cases (libraries.migrate pool)) [
      | inl (u, migrated) ↦ elim (Result-cases (libraries.bind s.addr)) [
        | inl (listener, bound) ↦ record {
          pool = pool;
          listener = listener;
          connected = connected;
          migrated = migrated;
          bound = bound;
          in_order = rw (connected, migrated, bound) refl;
          result_of = rw (connected, migrated, bound) refl;
        }
        | inr (message, e) ↦ absurd (ground (arith, h))
      ]
      | inr (message, e) ↦ absurd (ground (arith, h))
    ]
    | inr (message, e) ↦ absurd (ground (arith, h))
  ]

  -- A process that serves has read its settings and connected to the database of them with five
  -- connections, has applied the migrations, and has bound the address of the settings, in this order
  -- and with no other call between; it serves the adapter and the gateway of the settings over that
  -- pool, and ends as the server ends. So no request is answered before the migrations are applied.
  pub main-Serves :
      (keypairs : Keypairs sdk) (env : Environment)
      → any is_serves (main sdk libraries keypairs env []).1 ≡ true
      → (s : Settings sdk) × (settings sdk keypairs env ≡ some s)
        × Serves s (main sdk libraries keypairs env []).0 (main sdk libraries keypairs env []).1
  unfolding main stop
  main-Serves keypairs env h = elim (Option-cases (settings sdk keypairs env)) [
    | inl none_there ↦ absurd (ground (arith, h))
    | inr (s, e) ↦
        let same : main sdk libraries keypairs env [] ≡ main_with sdk libraries s [] = rw e refl in
        (
          s,
          e,
          subst (λ r. any is_serves r.1 ≡ true → Serves s r.0 r.1) (sym same) (main_with-Serves s)
              h,
        )
  ]

  -- A process with a paymaster secret that is no keypair panics before its first call: it does not
  -- connect to the database.
  pub main_bad_secret :
      (keypairs : Keypairs sdk) (env : Environment) (secret : Text)
      → env.var (text "XEND_PAYMASTER_SECRET") ≡ some secret
      → keypairs.from_base58_string (trim secret) ≡ none
      → main sdk libraries keypairs env [] ≡ (err panicked, [])
  unfolding main stop settings fee_payer
  main_bad_secret keypairs env secret set bad = rw (set, bad) refl
