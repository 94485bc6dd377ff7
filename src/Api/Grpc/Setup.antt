-- ===== src/Api/Grpc/Setup.antt =====
-- How the clients of crates/api/src/proto/relay.rs are made and set up. The three have the same
-- functions, which are modelled once. `tonic::client` and `tonic::transport` are a parameter.
use mev_relay_rs.Prelude.{ℕ, ◌≡◌, ◌↔◌, Result, ok, Result-cases, inl, inr, arith, ◌>>=◌}

-- A client's service `Grpc T` around its transport, the transport that an interceptor wraps, and the
-- endpoints that `connect` reaches.
pub record Transport : Type 1 where
  pub Uri : Type 0
  pub Interceptor : Type 0
  pub CompressionEncoding : Type 0
  pub Error : Type 0
  pub Destination : Type 0
  pub Endpoint : Type 0
  pub Channel : Type 0
  pub Intercepted : Type 0 → Type 0
  pub Grpc : Type 0 → Type 0
  pub intercept : {T : Type 0} → T → Interceptor → Intercepted T
  pub grpc_new : {T : Type 0} → T → Grpc T
  pub grpc_with_origin : {T : Type 0} → T → Uri → Grpc T
  pub grpc_send_compressed : {T : Type 0} → CompressionEncoding → Grpc T → Grpc T
  pub grpc_accept_compressed : {T : Type 0} → CompressionEncoding → Grpc T → Grpc T
  pub grpc_max_decoding_message_size : {T : Type 0} → ℕ → Grpc T → Grpc T
  pub grpc_max_encoding_message_size : {T : Type 0} → ℕ → Grpc T → Grpc T
  pub endpoint_new : Destination → Result Error Endpoint
  pub endpoint_connect : Endpoint → Result Error Channel

module _ (t : Transport) where
  -- `BidderServiceClient` and the other two
  pub record ServiceClient (T : Type 0) : Type 0 where
    pub inner : t.Grpc T

  unfoldable pub new_client : {T : Type 0} → T → ServiceClient T
  new_client inner = record { inner = t.grpc_new inner }

  unfoldable pub with_origin : {T : Type 0} → T → t.Uri → ServiceClient T
  with_origin inner origin = record { inner = t.grpc_with_origin inner origin }

  unfoldable pub with_interceptor :
      {T : Type 0} → T → t.Interceptor → ServiceClient (t.Intercepted T)
  unfolding new_client
  with_interceptor inner interceptor = new_client (t.intercept inner interceptor)

  unfoldable pub connect : t.Destination → Result t.Error (ServiceClient t.Channel)
  unfolding new_client
  connect dst = do
    endpoint ← t.endpoint_new dst
    conn ← t.endpoint_connect endpoint
    ok (new_client conn)

  module _ {T : Type 0} (client : ServiceClient T) where
    unfoldable pub send_compressed : t.CompressionEncoding → ServiceClient T
    send_compressed encoding = record client {
      inner = t.grpc_send_compressed encoding client.inner;
    }

    unfoldable pub accept_compressed : t.CompressionEncoding → ServiceClient T
    accept_compressed encoding = record client {
      inner = t.grpc_accept_compressed encoding client.inner;
    }

    unfoldable pub max_decoding_message_size : ℕ → ServiceClient T
    max_decoding_message_size limit = record client {
      inner = t.grpc_max_decoding_message_size limit client.inner;
    }

    unfoldable pub max_encoding_message_size : ℕ → ServiceClient T
    max_encoding_message_size limit = record client {
      inner = t.grpc_max_encoding_message_size limit client.inner;
    }

  -- A client connects exactly when the destination is an endpoint that answers; it is then the client
  -- of that connection, with the default settings.
  pub connect_iff :
      (dst : t.Destination) (client : ServiceClient t.Channel)
      → (connect dst ≡ ok client) ↔ (
          (endpoint : t.Endpoint) × (t.endpoint_new dst ≡ ok endpoint)
          × ((conn : t.Channel) × (t.endpoint_connect endpoint ≡ ok conn)
              × (client.inner ≡ t.grpc_new conn)))
  unfolding connect
  connect_iff dst client = elim (Result-cases (t.endpoint_new dst)) [
    | inr (e, p) ↦ (λ q. absurd (ground (arith, p, q)), λ (x, p', _). absurd (cc (p, p')))
    | inl (endpoint, p) ↦ elim (Result-cases (t.endpoint_connect endpoint)) [
      | inr (e, r) ↦ (
        λ q. absurd (ground (arith, p, r, q)),
        λ (x, p', (conn, r', _)). let same : x ≡ endpoint = cc (p, p') in absurd (cc (r, r', same)),
      )
      | inl (conn, r) ↦ (
        λ q. (endpoint, p, (conn, r, ground (arith, p, r, q))),
        λ (x, p', (conn', r', made)).
            let same : x ≡ endpoint = cc (p, p') in
            let one : conn' ≡ conn = cc (r, r', same) in ground (arith, p, r, made, one),
      )
    ]
  ]
