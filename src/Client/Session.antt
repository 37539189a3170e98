-- ===== src/Client/Session.antt =====
-- `main` of backend/src/bin/gasless_client.rs: the arguments, and the calls in their order. A server
-- is a function on a state; a call that fails or whose answer is no JSON has no answer. What is
-- printed on the way is left out.
pub mod Transfers
pub mod Spelling
use mathlib.Core.Option.{get_or}
use xend.Common.{
  ℕ, zero, suc, ◌^◌, Bool, true, false, List, [], ◌∷◌, Option, none, some, Result, ok, err, ltb,
  if◌then◌else◌, is_some, get_elem?,
}
use xend.Common.Text.{Text, text, strip_suffix}
use xend.Common.Decimal.{parse_u128, to_string}
use xend.Crates.{Base64}
use xend.Error.{AppError}
use xend.Handlers.Tx.{BuildRequest, BuildResponse, SubmitRequest}
use xend.Handlers.Requests.{Request, builds, submits, resolves, Response, built, resolved}
use xend.Client.{Signer, submission}

pub record Args : Type 0 where
  pub base_url : Text
  pub from : Signer
  pub to : Text
  pub lamports : ℕ

-- `parse` into a u64, which reads the same digits as into a u128.
unfoldable pub parse_u64 : Text → Option ℕ
parse_u64 s = elim (parse_u128 s) [ none ↦ none | some n ↦ if ltb n (2 ^ 64) then some n else none ]

abbrev pub args_of : Text → Option Signer → Option Text → Option ℕ → Option Args
args_of base_url (some from) (some to) (some lamports) =
    some (record { base_url = base_url; from = from; to = to; lamports = lamports })
args_of base_url other to lamports = none

abbrev read_signer : (Text → Option Signer) → Option Text → Option Signer
read_signer from_base58_string none = none
read_signer from_base58_string (some secret) = from_base58_string secret

abbrev pub read_lamports : Option Text → Option ℕ
read_lamports none = none
read_lamports (some s) = parse_u64 s

-- A panic and an error are `none`.
unfoldable pub read_args : (Text → Option Signer) → List Text → Option Args
unfolding parse_u64
read_args from_base58_string args =
    args_of (get_or (get_elem? args 1) (text "http://localhost:8081"))
      (read_signer from_base58_string (get_elem? args 2)) (get_elem? args 3)
      (read_lamports (get_elem? args 4))

abbrev pub Reply : Type 0
Reply = Result Response AppError

-- The fields that the client reads are there in the answers of a success only.
abbrev pub address_of : Option Reply → Option Text
address_of (some (ok (resolved r))) = some r.address
address_of other = none

abbrev pub build_of : Option Reply → Option BuildResponse
build_of (some (ok (built b))) = some b
build_of other = none

abbrev pub build_request : Args → Text → BuildRequest
build_request args to = record {
  from = args.from.address;
  to = to;
  amount = to_string args.lamports;
  mint = none;
}

abbrev pub is_name : (Text → Text) → Text → Bool
is_name to_lowercase to = is_some (strip_suffix (text ".sol") (to_lowercase to))

module _ {S : Type 0} (base64 : Base64) (to_lowercase : Text → Text)
    (send : Request → S → Option Reply × S) where
  -- A `.sol` name is resolved first.
  unfoldable pub recipient : Text → S → Option Text × S
  recipient to s =
      if is_name to_lowercase to
      then (let (reply, s') = send (resolves to) s in (address_of reply, s'))
      else (some to, s)

  -- The submission, and the reply to it that is printed.
  abbrev pub submit_signed : Option SubmitRequest → S → Option Reply × S
  submit_signed none s = (none, s)
  submit_signed (some req) s = send (submits req) s

  abbrev pub after_build : Args → Text → Option BuildResponse × S → Option Reply × S
  after_build args to (none, s) = (none, s)
  after_build args to (some build, s) =
      submit_signed (submission base64 args.from to args.lamports build) s

  abbrev pub build_and_submit : Args → Option Text × S → Option Reply × S
  build_and_submit args (none, s) = (none, s)
  build_and_submit args (some to, s) =
      let (reply, s') = send (builds (build_request args to)) s in
      after_build args to (build_of reply, s')

  unfoldable pub run_client : Args → S → Option Reply × S
  unfolding recipient
  run_client args s = build_and_submit args (recipient args.to s)

  abbrev run_with : Option Args → S → Option Reply × S
  run_with none s = (none, s)
  run_with (some args) s = run_client args s

  -- `main`, on the arguments of the command line.
  unfoldable pub main : (Text → Option Signer) → List Text → S → Option Reply × S
  unfolding run_client
  main from_base58_string args s = run_with (read_args from_base58_string args) s
