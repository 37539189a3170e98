-- ===== src/Client/Wire.antt =====
-- The wire form that a client assembles is read back by its layout.
use mathlib.Core.Option
use mathlib.Core.Path.{subst}
use xend.Common.{
  ℕ, zero, suc, ◌<◌, ◌%◌, ◌≡◌, refl, ap, ◌∙◌, List, [], ◌∷◌, ◌++◌, Option, none, some, arith,
  length, take, drop, All, All-append, take-length-append, drop-length-append,
}
use xend.Common.Text.{Text}
use xend.Common.Bytes.{Bytes, IsByte}
use xend.Crates.{Base64, DecodesEncoded}
use xend.Handlers.Tx.{BuildResponse, SubmitRequest}
use xend.Client.{Signer, signatures, extend_all, wire, request, submission, decode_signature}

-- A reader of the wire form: the count, then that many signatures of 64 bytes, then the message.
abbrev read_signatures : ℕ → Bytes → List Bytes × Bytes
read_signatures zero b = ([], b)
read_signatures (suc n) b =
    let (sigs, message) = read_signatures n (drop 64 b) in (take 64 b ∷ sigs, message)

abbrev pub read_wire : Bytes → List Bytes × Bytes
read_wire [] = ([], [])
read_wire (count ∷ b) = read_signatures count b

abbrev pub IsSignature : Bytes → Type 0
IsSignature s = (length s ≡ 64) × All IsByte s

read_signatures-extend_all :
    (sigs : List Bytes) (message : Bytes)
    → All IsSignature sigs
    → read_signatures (length sigs) (extend_all sigs message) ≡ (sigs, message)
read_signatures-extend_all [] message h = refl
read_signatures-extend_all (s ∷ sigs) message ((l, b), h) =
    rw (first, rest, read_signatures-extend_all sigs message h)
  where
    first : take 64 (s ++ extend_all sigs message) ≡ s
    first =
        subst (λ n. take n (s ++ extend_all sigs message) ≡ s) l
          (take-length-append s (extend_all sigs message))

    rest : drop 64 (s ++ extend_all sigs message) ≡ extend_all sigs message
    rest =
        subst (λ n. drop n (s ++ extend_all sigs message) ≡ extend_all sigs message) l
          (drop-length-append s (extend_all sigs message))

abbrev pub IsSignatureOrNone : Option Bytes → Type 0
IsSignatureOrNone none = Unit
IsSignatureOrNone (some s) = IsSignature s

signatures-IsSignature :
    (fee : Option Bytes) (user : Bytes)
    → IsSignatureOrNone fee
    → IsSignature user
    → All IsSignature (signatures fee user) × (length (signatures fee user) < 256)
unfolding signatures
signatures-IsSignature none user h k = ((k, tt), omega arith)
signatures-IsSignature (some s) user h k = ((h, (k, tt)), omega arith)

extend_all-IsByte :
    (sigs : List Bytes) (message : Bytes)
    → All IsSignature sigs
    → All IsByte message
    → All IsByte (extend_all sigs message)
extend_all-IsByte [] message h m = m
extend_all-IsByte (s ∷ sigs) message ((l, b), h) m =
    All-append IsByte s (extend_all sigs message) b (extend_all-IsByte sigs message h m)

read_wire-wire :
    (sigs : List Bytes) (message : Bytes)
    → All IsSignature sigs
    → length sigs < 256
    → read_wire (wire sigs message) ≡ (sigs, message)
unfolding wire
read_wire-wire sigs message h short =
    ap (λ n. read_signatures n (extend_all sigs message)) (small short)
    ∙ read_signatures-extend_all sigs message h
  where
    small : {n : ℕ} → n < 256 → n % 256 ≡ n
    small h = omega arith

wire-IsByte :
    (sigs : List Bytes) (message : Bytes)
    → All IsSignature sigs
    → All IsByte message
    → All IsByte (wire sigs message)
unfolding wire
wire-IsByte sigs message h m = (omega arith, extend_all-IsByte sigs message h m)

decode_signature-encode :
    (base64 : Base64) (fee : Option Bytes)
    → DecodesEncoded base64
    → IsSignatureOrNone fee
    → decode_signature base64 (Option.map base64.encode fee) ≡ some fee
decode_signature-encode base64 none law h = refl
decode_signature-encode base64 (some s) law h = rw (law s h.1) refl

submission_of_decoded :
    (base64 : Base64) (from : Signer) (to : Text) (lamports : ℕ) (build : BuildResponse)
    (message : Bytes) (fee : Option Bytes)
    → base64.decode build.message ≡ some message
    → decode_signature base64 build.fee_payer_signature ≡ some fee
    → submission base64 from to lamports build ≡ some (request base64 from to lamports message fee)
unfolding submission
submission_of_decoded base64 from to lamports build message fee d s = ground arith

-- The round trip between the device and the backend: where `build` answered with a message and
-- perhaps the paymaster's signature, both in base64, the client submits a request whose payload
-- `submit` decodes to a wire form that reads back as the paymaster's signature, if there was one,
-- the sender's signature of that message, and the message. Signatures have 64 bytes.
pub submission_readable :
    (base64 : Base64) (from : Signer) (to : Text) (lamports : ℕ) (message : Bytes)
    (fee : Option Bytes) (build : BuildResponse)
    → DecodesEncoded base64
    → All IsByte message
    → IsSignatureOrNone fee
    → IsSignature (from.sign_message message)
    → build.message ≡ base64.encode message
    → build.fee_payer_signature ≡ Option.map base64.encode fee
    → (req : SubmitRequest) × (bytes : Bytes) × (submission base64 from to lamports build
        ≡ some req)
      × (base64.decode req.signed ≡ some bytes)
      × (read_wire bytes ≡ (signatures fee (from.sign_message message), message))
unfolding request
submission_readable base64 from to lamports message fee build law m f u p q =
    let sigs = signatures fee (from.sign_message message) in
    let (good, short) = signatures-IsSignature fee (from.sign_message message) f u in
    let decoded : base64.decode build.message ≡ some message = ap base64.decode p ∙ law message m in
    let sponsor : decode_signature base64 build.fee_payer_signature ≡ some fee =
      ap (decode_signature base64) q ∙ decode_signature-encode base64 fee law f in
    (
      request base64 from to lamports message fee,
      wire sigs message,
      submission_of_decoded base64 from to lamports build message fee decoded sponsor,
      law (wire sigs message) (wire-IsByte sigs message good m),
      read_wire-wire sigs message good short,
    )
