-- ===== src/EndToEnd/Reply.antt =====
-- What the client gets of a request that the server accepts.
use relay_x.Prelude.{
  ◌≤◌, ◌≡◌, refl, sym, ap, ◌∙◌, List, [], ◌∷◌, ◌++◌, false, not, some, none, length, le→leb,
  All-below,
}
use mathlib.Core.Path.{subst}
use relay_x.Prelude.Int.{ℤ}
use relay_x.Text.{Text, Bytes, str}
use relay_x.Text.Equality.{text_eq, text_eq_refl, one_of}
use relay_x.Text.Unicode.{Unicode, IsUnicode}
use relay_x.Text.Split.{split_at}
use relay_x.Constants.{relay_content_type}
use relay_x.Errors.{ok, >>=-eq-ok, guard-eq-ok, protocol_error}
use relay_x.Models.{
  HeaderList, RelayRequest, RelayResponse, Message, request, response, validate_response,
  new_response, validate_request, validate_request_id, validate_common, is_other_version,
}
use relay_x.Pipeline.{Libraries, encode_message, decode_message}
use relay_x.Pipeline.Roundtrip.{Fits, Admits, decode-encode}
use relay_x.Server.{
  Outgoing, Upstream, replied, ServerSettings, outgoing, finish, process, encode_reply, accept_body,
  relay,
}
use relay_x.Server.Carrier.{authenticate_iff, concat, read_limited_body-eq}
use relay_x.Server.Replies.{forward-eq, relayed}
use relay_x.Client.{ClientSettings, exchange, check_reply, send}
use relay_x.EndToEnd.{Side, IsConnected, carrier, post, send_through}

right_type :
    (u : Unicode)
    → IsUnicode u
    → not (text_eq (u.lower (split_at b';' relay_content_type).0) relay_content_type) ≡ false
unfolding split_at text_eq
right_type u t = rw (t.lower_ascii relay_content_type (All-below 128 relay_content_type refl))

module _ (lib : Libraries) (upstream : Outgoing → Upstream) (c : ClientSettings)
    (s : ServerSettings) (split : Bytes → List Bytes) (client server : Side) (r : RelayRequest)
    (packet : Bytes) (k : IsConnected lib upstream c s split client server r packet) where
  accepted : accept_body lib upstream s (carrier lib upstream c s split packet) ≡ ok packet
  unfolding accept_body
  accepted =
      rw
        (
          (authenticate_iff (some (str "Bearer " ++ s.auth_token)) s.auth_token).1
              (record { header_eq = refl; nonempty = k.token; ascii = k.token_ascii }),
          right_type lib.unicode k.tables,
          read_limited_body-eq (split packet) s.limits.max_ciphertext_bytes,
          k.joined,
        )
        (rw (le→leb (length packet) s.limits.max_ciphertext_bytes k.within))

  decoded : (decode_message lib packet s.key server.cache s.limits server.now).0 ≡ ok (request r)
  decoded =
      subst
        (λ key. (decode_message lib packet key server.cache s.limits server.now).0 ≡ ok (request r))
        k.same_key
        (decode-encode lib s.limits (request r) c.key c.compression_enabled
          c.compression_threshold_bytes client.draw packet server.cache server.now k.laws k.made
          k.encoded k.fits k.admitted)

  -- The server's answer is its reply to the request, encoded.
  pub answered :
      (relay lib upstream s server.cache server.now server.draw
        (carrier lib upstream c s split packet)).result
      ≡ encode_reply lib upstream s server.draw (process lib upstream s (ok (request r)))
  unfolding relay
  answered = rw (accepted, relay) (rw decoded)

validate_request-id :
    (u : Unicode) (r : RelayRequest)
    → validate_request u r ≡ ok tt
    → validate_request_id r.request_id ≡ ok tt
unfolding validate_request validate_common
validate_request-id u r h =
    let (_, e, _) = >>=-eq-ok (validate_common r.version r.kind r.request_id) _ h in
    let (_, e1) = guard-eq-ok (is_other_version r.version) protocol_error _ e in
    let (_, e2) =
      guard-eq-ok (not (one_of r.kind (str "request" ∷ str "response" ∷ str "error" ∷ [])))
        protocol_error _ e1 in
    e2

check_reply-own :
    (r : RelayRequest) (x : RelayResponse)
    → x.request_id ≡ r.request_id
    → check_reply r (response x) ≡ ok (response x)
unfolding check_reply
check_reply-own r x same = rw (same, text_eq_refl r.request_id)

module _ (lib : Libraries) (upstream : Outgoing → Upstream) (c : ClientSettings)
    (s : ServerSettings) (split : Bytes → List Bytes) (client server : Side) (r : RelayRequest)
    (packet : Bytes) (k : IsConnected lib upstream c s split client server r packet) where
  -- The exchange gives the server's encoded reply.
  pub exchanged :
      (message : Message) (answer : Bytes)
      → process lib upstream s (ok (request r)) ≡ ok message
      → encode_message lib message s.key s.compression_enabled s.compression_threshold_bytes
          server.draw
        ≡ ok answer
      → exchange lib c (post lib upstream c s split server) r client.draw ≡ ok answer
  unfolding exchange encode_reply
  exchanged message answer p e =
      rw k.encoded (answered lib upstream c s split client server r packet k ∙ (rw p e))

  -- What the server makes of a complete response of the upstream.
  processed :
      (status : ℤ) (reason : Text) (headers : HeaderList) (chunks : List Bytes)
      → upstream (outgoing lib.unicode r) ≡ replied status reason headers chunks none
      → length (concat chunks) ≤ s.limits.max_response_body_bytes
      → validate_response (relayed lib.unicode r status reason headers (concat chunks)) ≡ ok tt
      → process lib upstream s (ok (request r))
        ≡ ok (response (relayed lib.unicode r status reason headers (concat chunks)))
  unfolding process finish new_response
  processed status reason headers chunks replied_so small valid =
      rw
        (
          forward-eq lib.unicode r s.limits.max_response_body_bytes status reason headers none
              (validate_request-id lib.unicode r k.made.0) upstream chunks replied_so,
          le→leb (length (concat chunks)) s.limits.max_response_body_bytes small,
        )
        (rw valid)

  -- Where client and server have the same key and the same non-empty ASCII token, the carrier
  -- hands over the whole body, and the packet of a valid request passes the server's size limits
  -- and its replay cache, the client's send returns the upstream's response: its status and
  -- reason, its headers without those of the connection, and its whole body, however it was cut;
  -- if the body is within the server's limit, a RelayResponse can hold it, and the answer's packet
  -- passes the client's limits and replay cache.
  pub send_through-replied :
      (status : ℤ) (reason : Text) (headers : HeaderList) (chunks : List Bytes) (x : RelayResponse)
      (answer : Bytes)
      → upstream (outgoing lib.unicode r) ≡ replied status reason headers chunks none
      → length (concat chunks) ≤ s.limits.max_response_body_bytes
      → x ≡ relayed lib.unicode r status reason headers (concat chunks)
      → validate_response x ≡ ok tt
      → encode_message lib
          (response x)
          s.key
          s.compression_enabled
          s.compression_threshold_bytes
          server.draw
        ≡ ok answer
      → Fits lib c.limits (response x) answer
      → Admits client.cache server.draw client.now
      → (send_through lib upstream c s split client server r).0 ≡ ok (response x)
  unfolding send_through send
  send_through-replied status reason headers chunks x answer replied_so small same valid encoded
        fits admitted =
      let p : process lib upstream s (ok (request r)) ≡ ok (response x) =
        processed status reason headers chunks replied_so small
          (ap validate_response (sym same) ∙ valid)
        ∙ ap (λ y. ok (response y)) (sym same) in
      rw (exchanged (response x) answer p encoded) (
        rw
          (decode-encode lib c.limits (response x) c.key s.compression_enabled
            s.compression_threshold_bytes server.draw answer client.cache client.now k.laws
            (
              valid,
              ap (λ (y : RelayResponse). y.version) same,
              ap (λ (y : RelayResponse). y.kind) same,
            )
            (ap
                (λ key.
                  encode_message lib (response x) key s.compression_enabled
                    s.compression_threshold_bytes server.draw)
                k.same_key
              ∙ encoded)
            fits admitted)
          (check_reply-own r x (ap (λ (y : RelayResponse). y.request_id) same)))
