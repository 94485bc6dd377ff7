-- ===== src/Gateway/Publish/Exact.antt =====
-- When crates/gateway/src/beacon/api.rs publishes a block, and with which root.
use mev_relay_rs.Prelude.{
  ◌≤◌, ◌<◌, ◌≡◌, ◌≢◌, ◌↔◌, refl, ap, ◌∙◌, [], ◌∷◌, ◌++◌, Bytes, codes, replicate, length, none,
  some, Message, Result, ok, err, map_err, >>=-eq-ok, ok-injective, Option-cases, Result-cases, inl,
  inr, arith, tests,
}
use mev_relay_rs.Entity.Types.{B256}
use mev_relay_rs.Gateway.Api.{SignedBeaconBlockContent, SubmissionType, json, ssz}
use mev_relay_rs.Gateway.Events.{BeaconError}
use mev_relay_rs.Gateway.Events.Text.{strip_prefix}
use mev_relay_rs.Gateway.Head.{Json, checked, check_status}
use mev_relay_rs.Gateway.Node.{Response}
use mev_relay_rs.Gateway.Publish.{
  Encoders, PublishRequest, publish_request, block_root_bytes, posted_root, copy_root,
  publish_block,
}

-- What the digits after the prefix say of the text.
strip-text :
    (s digits : Bytes) → strip_prefix (codes "0x") s ≡ some digits → s ≡ codes "0x" ++ digits
unfolding strip_prefix
strip-text [] digits e = absurd (cc e)
strip-text (c ∷ []) digits e = absurd (ground arith)
strip-text (c ∷ d ∷ s) digits e = ground arith

text-strip : (digits : Bytes) → strip_prefix (codes "0x") (codes "0x" ++ digits) ≡ some digits
unfolding strip_prefix
text-strip digits = refl

checked-ok :
    (sent : Result Message Response) (resp : Response)
    → checked sent ≡ ok resp
    → (sent ≡ ok resp) × (200 ≤ resp.status) × (resp.status < 300)
unfolding checked check_status
checked-ok (ok r) resp e = (ground arith, grind tests, grind tests)
checked-ok (err x) resp e = absurd (cc e)

ok-checked :
    (sent : Result Message Response) (resp : Response)
    → sent ≡ ok resp
    → 200 ≤ resp.status
    → resp.status < 300
    → checked sent ≡ ok resp
unfolding checked check_status
ok-checked sent resp e low high = rw e (ground arith)

module _ (j : Json) (k : Encoders j) (read : Response → Result Message j.Value)
    (post : PublishRequest j → Result Message Response) (url : Bytes)
    (block : SignedBeaconBlockContent) (submission_type : SubmissionType) where
  abbrev content_type : SubmissionType → Bytes
  content_type json = codes "application/json"
  content_type ssz = codes "application/octet-stream"

  -- The POST of a block whose payload has this value.
  abbrev pub described : j.Value → PublishRequest j
  described payload =
      let header = j.object (
        ("slot", j.string (k.to_string block.slot))
        ∷ ("proposer_index", j.string (k.to_string block.proposer_index))
        ∷ ("parent_root", j.string (codes "0x" ++ k.encode block.parent_root))
        ∷ ("state_root", j.string (codes "0x" ++ k.encode block.state_root))
        ∷ ("body", j.object (("execution_payload", payload) ∷ []))
        ∷ []) in
      record {
        url = url ++ codes "eth/v1/builder/blocks";
        content_type = content_type submission_type;
        body =
            j.object
              (("message", header) ∷ ("signature", j.string (codes "0x" ++ replicate 192 48)) ∷ []);
      }

  -- The node took the block with a success status, and its answer names these bytes in hex.
  pub record IsPosted (bytes : Bytes) : Type 0 where
    pub payload : j.Value
    pub payload_value : k.to_value block.body.execution_payload ≡ ok payload
    pub resp : Response
    pub sent : post (described payload) ≡ ok resp
    pub success : (200 ≤ resp.status) × (resp.status < 300)
    pub body : j.Value
    pub body_read : read resp ≡ ok body
    pub digits : Bytes
    pub data_text : j.as_str (j.index body "data") ≡ some (codes "0x" ++ digits)
    pub decoded : k.decode digits ≡ some bytes

  request-described :
      (payload : j.Value)
      → k.to_value block.body.execution_payload ≡ ok payload
      → publish_request j k url block submission_type ≡ ok (described payload)
  unfolding publish_request
  request-described payload p = rw p refl

  root-IsPosted :
      (payload : j.Value) (resp : Response) (bytes : Bytes)
      → k.to_value block.body.execution_payload ≡ ok payload
      → checked (post (described payload)) ≡ ok resp
      → block_root_bytes j k read resp ≡ ok bytes
      → IsPosted bytes
  unfolding block_root_bytes
  root-IsPosted payload resp bytes p q e =
      let (body, r, e1) = >>=-eq-ok (map_err (read resp) _) _ e in
      let (sent, low, high) = checked-ok (post (described payload)) resp q in
      let was_read : read resp ≡ ok body = elim (Result-cases (read resp)) [
        | inl (v, t) ↦ ground (arith, t, r)
        | inr (x, t) ↦ absurd (ground (arith, t, r))
      ] in
      elim (Option-cases (j.as_str (j.index body "data"))) [
        | inl t ↦ absurd (ground (arith, t, e1))
        | inr (s, t) ↦ elim (Option-cases (strip_prefix (codes "0x") s)) [
          | inl u ↦ absurd (ground (arith, t, u, e1))
          | inr (digits, u) ↦ elim (Option-cases (k.decode digits)) [
            | inl v ↦ absurd (ground (arith, t, u, v, e1))
            | inr (x, v) ↦ record {
              payload = payload;
              payload_value = p;
              resp = resp;
              sent = sent;
              success = (low, high);
              body = body;
              body_read = was_read;
              digits = digits;
              data_text = t ∙ ap some (strip-text s digits u);
              decoded = v ∙ ap some (ground (arith, t, u, v, e1));
            }
          ]
        ]
      ]

  refused :
      (request : PublishRequest j) (x : Message)
      → k.to_value block.body.execution_payload ≡ err x
      → publish_request j k url block submission_type ≢ ok request
  unfolding publish_request
  refused request x t p = ground (arith, t, p)

  posted_root-IsPosted :
      (bytes : Bytes)
      → posted_root j k read post url block submission_type ≡ ok bytes
      → IsPosted bytes
  unfolding posted_root
  posted_root-IsPosted bytes e =
      let (request, p, e1) = >>=-eq-ok (publish_request j k url block submission_type) _ e in
      let (resp, q, r) = >>=-eq-ok (checked (post request)) _ e1 in
      elim (Result-cases (k.to_value block.body.execution_payload)) [
        | inr (x, t) ↦ absurd (refused request x t p)
        | inl (payload, t) ↦
            let same : request ≡ described payload =
              ok-injective _ request (described payload) p (request-described payload t) in
            root-IsPosted payload resp bytes t (rw (← same) q) r
      ]

  IsPosted-posted_root :
      (bytes : Bytes)
      → IsPosted bytes
      → posted_root j k read post url block submission_type ≡ ok bytes
  unfolding posted_root block_root_bytes
  IsPosted-posted_root bytes d =
      let sent = ok-checked (post (described d.payload)) d.resp d.sent d.success.0 d.success.1 in
      rw
        (
          request-described d.payload d.payload_value,
          sent,
          d.body_read,
          d.data_text,
          text-strip d.digits,
          d.decoded,
        )
        refl

  copy_root_cases :
      (r : Result BeaconError Bytes)
      → ((root : B256) → (copy_root j k r ≡ some (ok root)) ↔ ((r ≡ ok root) × (length root ≡ 32)))
        × ((copy_root j k r ≡ none) ↔ ((bytes : Bytes) × (r ≡ ok bytes) × (length bytes ≢ 32)))
  unfolding copy_root
  copy_root_cases (ok bytes) = (
    λ root. (λ e. ground arith, λ (e, l). ground arith),
    (λ e. (bytes, refl, λ h. ground arith), λ (x, e, l). ground arith),
  )
  copy_root_cases (err x) = (
    λ root. (λ e. absurd (ground arith), λ (e, l). absurd (cc e)),
    (λ e. absurd (ground arith), λ (y, e, l). absurd (cc e)),
  )

  -- Publishing a block returns a root exactly when the payload can be serialised, the POST of the block
  -- to `eth/v1/builder/blocks` under the node's address, with the given content type, is answered with a
  -- success status, and the answer's `data` is "0x" and the hex of that root, which has 32 bytes; it
  -- panics exactly when the same holds of bytes of another length; in every other case it returns an
  -- error.
  pub publish_block_iff :
      ((root : B256)
        → (publish_block j k read post url block submission_type ≡ some (ok root))
          ↔ (IsPosted root × (length root ≡ 32)))
      × ((publish_block j k read post url block submission_type ≡ none)
          ↔ ((bytes : Bytes) × IsPosted bytes × (length bytes ≢ 32)))
  unfolding publish_block
  publish_block_iff =
      let (roots, panics) = copy_root_cases (posted_root j k read post url block submission_type) in
      (
        λ root. (
          λ e. let (p, l) = (roots root).0 e in (posted_root-IsPosted root p, l),
          λ (d, l). (roots root).1 (IsPosted-posted_root root d, l),
        ),
        (
          λ e. let (bytes, p, l) = panics.0 e in (bytes, posted_root-IsPosted bytes p, l),
          λ (bytes, d, l). panics.1 (bytes, IsPosted-posted_root bytes d, l),
        ),
      )
