-- ===== src/Client/Session/Spelling.antt =====
-- A name that the client recognises and the backend does not.
use xend.Common.{◌≡◌, ◌≢◌, refl, ap, ◌∙◌, true, Option, none, some}
use xend.Common.Text.{Text, text, strip_suffix}
use xend.Common.Text.Affix.{strip_suffix-append}
use xend.Runtime.{Host, World}
use xend.Runtime.Success.{bind_of_err}
use xend.Chain.Solana.Sdk.{Sdk}
use xend.Chain.Solana.Json.{Json, Network}
use xend.Chain.Solana.Methods.{SolanaAdapter}
use xend.Chain.Solana.Methods.Names.{resolve_name_malformed}
use xend.Handlers.Wallet.{resolve}
use xend.Handlers.Requests.{Codecs, respond}
use xend.Client.Session.{Args, is_name, run_client}
use xend.Client.Session.Transfers.{send}

apart : {s : Text} (o : Option Text) → o ≡ none → o ≢ some s
apart o e h = cc

module _ (host : Host) (sdk : Sdk) (json : Json) (net : Network json) (codecs : Codecs)
    (self : SolanaAdapter sdk) where
  -- A recipient that ends in `.sol` only once it is in lower case is taken for a name by the client,
  -- and refused by the backend: the client ends with no reply, and nothing was asked of the network.
  pub run_client_unresolved :
      (to_lowercase : Text → Text) (args : Args) (w : World)
      → is_name to_lowercase args.to ≡ true
      → strip_suffix (text ".sol") args.to ≡ none
      → run_client codecs.base64 to_lowercase (send host sdk json net codecs self) args w
        ≡ (none, w)
  unfolding run_client respond resolve
  run_client_unresolved to_lowercase args w named other =
      let refused =
        resolve_name_malformed host sdk json net codecs.base64 self args.to w (λ label h e.
          apart _ other
            (ap (strip_suffix (text ".sol")) e ∙ strip_suffix-append (text ".sol") label)) in
      rw (named, bind_of_err _ _ w (bind_of_err _ _ w refused)) refl
