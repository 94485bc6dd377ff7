-- ===== src/Examples/Clients.antt =====
-- An example of calls through the generated clients and servers, over a toy transport.
use mev_relay_rs.Prelude.{
  ℕ, ◌≡◌, refl, ap, List, map, [], ◌∷◌, Bytes, msg, Result, ok, err, Option, none, some,
}
use mev_relay_rs.Api.Proto
use mev_relay_rs.Api.Stream.{Status, internal}
use mev_relay_rs.Api.Grpc.{Tonic, Streaming, Codec, ServiceCodecs}
use mev_relay_rs.Api.Grpc.Laws.{IsStreamCodec}

pub data Body : Type 0 where
  bids : Streaming Proto.BidRequest → Body
  retrievals : Streaming Proto.RetrieveRequest → Body
  blinded : Proto.SubmitBlindedBlockRequest → Body
  registration : Proto.RegisterValidatorRequest → Body

pub data Output : Type 0 where
  answers : Result Status (Streaming (Result Status Proto.BidResponse)) → Output
  headers : Result Status (Streaming (Result Status Proto.RetrieveResponse)) → Output
  unblinded : Result Status Proto.BlindedBlockResponse → Output
  registered : Result Status Proto.RegisterValidatorResponse → Output
  status : ℕ → Output

abbrev pub tonic : Tonic
tonic = record {
  Request = Bytes × Body;
  path = λ r. r.0;
  Response = Output;
  empty_response = status;
  CompressionEncoding = Unit;
  EnabledCompressionEncodings = Unit;
  default_encodings = tt;
  enable = λ e s. s;
}

-- A codec from the parts of a body and an output that are the method's.
abbrev pub codec :
    {W A B : Type 0}
    → (A → Body)
    → (Body → Option A)
    → (Result Status B → Output)
    → (Output → Result Status B)
    → Codec tonic W A B
codec body input output result = record {
  encode = λ p a. (p, body a);
  decode = result;
  serve = λ config f r w. elim (input r.1) [
    | none ↦ (status 3, w)
    | some a ↦ let (out, w') = f a w in (output out, w')
  ];
}

-- An error ends the stream that the client reads.
abbrev cut : {B : Type 0} → List (Result Status B) → List (Result Status B)
cut [] = []
cut (ok x ∷ xs) = ok x ∷ cut xs
cut (err e ∷ xs) = err e ∷ []

abbrev read_stream :
    {B : Type 0} → Result Status (List (Result Status B)) → Result Status (List (Result Status B))
read_stream (ok xs) = ok (cut xs)
read_stream (err e) = err e

abbrev pub not_mine : {B : Type 0} → Result Status B
not_mine = err (internal (msg "another method's output"))

abbrev pub service_codecs : (W : Type 0) → ServiceCodecs tonic W
service_codecs W = record {
  bid =
      codec bids (λ x. elim x [ bids a ↦ some a | _ ↦ none ]) answers
        (λ x. elim x [ answers r ↦ read_stream r | _ ↦ not_mine ]);
  retrieve =
      codec retrievals (λ x. elim x [ retrievals a ↦ some a | _ ↦ none ]) headers
        (λ x. elim x [ headers r ↦ read_stream r | _ ↦ not_mine ]);
  submit_blinded_block =
      codec blinded (λ x. elim x [ blinded a ↦ some a | _ ↦ none ]) unblinded
        (λ x. elim x [ unblinded r ↦ r | _ ↦ not_mine ]);
  register_validator =
      codec registration (λ x. elim x [ registration a ↦ some a | _ ↦ none ]) registered
        (λ x. elim x [ registered r ↦ r | _ ↦ not_mine ]);
}

pub cut-map : {B : Type 0} (xs : List B) → cut (map ok xs) ≡ map ok xs
cut-map [] = refl
cut-map (x ∷ xs) = rw (cut-map xs) refl

abbrev pub bid_codec : (W : Type 0) → IsStreamCodec (service_codecs W).bid
bid_codec W = record {
  Fits = λ a. Unit;
  FitsOutput = λ r. Unit;
  path-encode = λ p a. refl;
  decode-serve = λ f p a w out h g e. (rw e (ap ok (cut-map out)), refl);
}

abbrev pub retrieve_codec : (W : Type 0) → IsStreamCodec (service_codecs W).retrieve
retrieve_codec W = record {
  Fits = λ a. Unit;
  FitsOutput = λ r. Unit;
  path-encode = λ p a. refl;
  decode-serve = λ f p a w out h g e. (rw e (ap ok (cut-map out)), refl);
}
