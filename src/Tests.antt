-- ===== src/Tests.antt =====
-- Concrete values for the parameters of the model, on which the code runs.
mod Handlers
mod Solana
mod Gateway
mod Client
mod Ledger
mod Wallets
mod Race
mod Paymaster
mod App
mod Server
mod Traffic
mod Twice
mod Units
mod Process
use xend.Common.{
  ℕ, suc, List, [], ◌∷◌, ◌++◌, Option, none, some, ok, err, map, true, false, Bool, if◌then◌else◌,
  replicate,
}
use xend.Common.Text.{Text, text, text_eq, is_empty}
use xend.Common.Bytes.{Bytes}
use xend.Crates.{Base64, Base58, Rfc3339}
use xend.Runtime.{
  Host, World, RpcRequest, Method, get_latest_blockhash, send_transaction, get_signature_statuses,
  get_balance, get_token_accounts_by_owner, get_token_supply, get_account_info,
}
use xend.Store.{empty_db}
use xend.Chain.Adapter.{ChainAdapter}
use xend.Chain.Solana.Sdk.{Sdk, Pubkey, Instruction}
use xend.Chain.Solana.Json.{Json, Network, HttpReply, decoded}
use xend.Chain.Solana.Methods.{SolanaAdapter, solana}
use xend.Handlers.Tx.{SubmitRequest}

-- No fault; the time is the step.
abbrev pub host : Host
host = record { fault = λ n. none; now = λ n. n; uuid = λ n. n }

abbrev some_bytes : Text → Option Bytes
some_bytes t = if is_empty t then none else some t

abbrev pub base64 : Base64
base64 = record { encode = λ b. b; decode = some_bytes }

abbrev pub base58 : Base58
base58 = record { decode = some_bytes }

abbrev pub rfc3339 : Rfc3339
rfc3339 = record { parse = λ t. none }

-- JSON: an array is a chain of items, an object a chain of fields.
pub data Value : Type 0 where
  null : Value
  number : ℕ → Value
  string : Text → Value
  end_of_array : Value
  item : Value → Value → Value
  end_of_object : Value
  field : Text → Value → Value → Value

abbrev get : Value → Text → Option Value
get (field k v rest) key = if text_eq k key then some v else get rest key
get other key = none

abbrev or_null : Option Value → Value
or_null none = null
or_null (some v) = v

abbrev first : Value → Value
first (item v rest) = v
first other = null

abbrev is_null : Value → Bool
is_null null = true
is_null other = false

abbrev as_str : Value → Option Text
as_str (string t) = some t
as_str other = none

abbrev as_u64 : Value → Option ℕ
as_u64 (number n) = some n
as_u64 other = none

abbrev as_array : Value → Option (List Value)
as_array end_of_array = some []
as_array (item v rest) = elim (as_array rest) [ none ↦ none | some vs ↦ some (v ∷ vs) ]
as_array other = none

-- `nth` reads the first item, which is all that the backend asks for.
abbrev pub json : Json
json = record {
  Value = Value;
  index = λ v key. or_null (get v key);
  nth = λ v n. first v;
  get = get;
  is_null = is_null;
  as_str = as_str;
  as_u64 = as_u64;
  as_array = as_array;
  print = λ v. text "json";
}

abbrev flatten : List Bytes → Bytes
flatten [] = []
flatten (b ∷ bs) = b ++ flatten bs

-- A key is its text; a signature is the key in front of the message.
abbrev pub sdk : Sdk
sdk = record {
  Hash = Text;
  Keypair = Bytes;
  Transaction = Bytes;
  pubkey_from_str = some_bytes;
  pubkey_to_string = λ k. k;
  hash_from_str = λ t. ok t;
  hashv = flatten;
  find_program_address = λ seeds program. (program ++ flatten seeds, 255);
  message = λ instructions payer hash. payer ++ hash;
  pubkey = λ k. k;
  sign_message = λ k m. k ++ m;
  deserialize = λ b. if is_empty b then err (text "io error") else ok b;
  verify = λ tx. true;
}

abbrev pub object : Text → Value → Value
object key v = field key v end_of_object

abbrev pub result : Value → Value
result v = object (text "result") v

abbrev pub value : Value → Value
value v = result (object (text "value") v)

abbrev pub answer : Method → Value
answer get_latest_blockhash = value (object (text "blockhash") (string (text "hash")))
answer send_transaction = result (string (text "sig"))
answer get_signature_statuses = value (item null end_of_array)
answer get_balance = value (number 5)
answer get_token_accounts_by_owner = value end_of_array
answer get_token_supply = value (object (text "decimals") (number 6))
answer get_account_info = value null

abbrev pub network : Network json
network = record { reply = λ step r. decoded (answer r.method) }

-- An adapter with a paymaster.
abbrev pub adapter : SolanaAdapter sdk
adapter = record {
  rpc_url = text "http://rpc";
  sns_rpc_url = text "http://sns";
  fee_payer = some (text "paymaster");
}

abbrev pub chain : ChainAdapter
chain = solana host sdk json network base64 adapter

abbrev pub start : World
start = record { db = empty_db; sent = []; step = 0 }

abbrev pub request : SubmitRequest
request = record {
  signed = text "tx";
  idempotency_key = text "k1";
  pubkey = none;
  to = some (text "bob");
  amount = some (text "7");
  mint = none;
}
