-- ===== src/EndToEnd/Failure.antt =====
-- What the client gets where the server answers with an error message.
use relay_x.Prelude.{◌≡◌, ap, ◌∙◌, List}
use relay_x.Text.{Bytes}
use relay_x.Errors.{ok, err, serialization_error}
use relay_x.Models.{RelayRequest, RelayError, request, error}
use relay_x.Pipeline.{Libraries, encode_message}
use relay_x.Pipeline.Roundtrip.{Fits, Admits}
use relay_x.Pipeline.ErrorMessages.{decode-encode_error}
use relay_x.Server.{Outgoing, Upstream, ServerSettings, process}
use relay_x.Client.{ClientSettings, send}
use relay_x.EndToEnd.{Side, IsConnected, send_through}
use relay_x.EndToEnd.Reply.{exchanged}

module _ (lib : Libraries) (upstream : Outgoing → Upstream) (c : ClientSettings)
    (s : ServerSettings) (split : Bytes → List Bytes) (client server : Side) (r : RelayRequest)
    (packet : Bytes) (k : IsConnected lib upstream c s split client server r packet) where
  -- Where client and server have the same key and the same non-empty ASCII token, the carrier
  -- hands over the whole body, and the packet of a valid request passes the server's size limits
  -- and its replay cache, and the server answers it with an error message whose packet passes the
  -- client's limits and replay cache, the client's send raises SerializationError: no error
  -- message of the server ever reaches the client.
  pub send_through-failed :
      (e : RelayError) (answer : Bytes)
      → process lib upstream s (ok (request r)) ≡ ok (error e)
      → encode_message lib
          (error e)
          s.key
          s.compression_enabled
          s.compression_threshold_bytes
          server.draw
        ≡ ok answer
      → Fits lib c.limits (error e) answer
      → Admits client.cache server.draw client.now
      → (send_through lib upstream c s split client server r).0 ≡ err serialization_error
  unfolding send_through send
  send_through-failed e answer p encoded fits admitted =
      rw (exchanged lib upstream c s split client server r packet k (error e) answer p encoded) (
        rw (
          decode-encode_error lib c.limits e c.key s.compression_enabled
            s.compression_threshold_bytes server.draw answer client.cache client.now k.laws
            (ap
                (λ key.
                  encode_message lib (error e) key s.compression_enabled
                    s.compression_threshold_bytes server.draw)
                k.same_key
              ∙ encoded)
            fits admitted))
