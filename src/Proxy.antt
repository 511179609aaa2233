-- ===== src/Proxy.antt =====
-- relayx/client/proxy.py: a connection of the local proxy, from the request to the response.
-- The drawn uuid4().hex is an argument.
pub mod Answers
mod Tests
use relay_x.Prelude.{ℕ, [], Bool, true, false, Option, some, none}
use relay_x.Text.{Text, Bytes, str}
use relay_x.Errors.{Result, ok, err, ◌>>=◌}
use relay_x.Replay.{ReplayCache}
use relay_x.Models.{
  RelayRequest, RelayError, Message, request, response, error, new_request, new_error,
}
use relay_x.Headers.{filter_forward_headers}
use relay_x.Parser.{HttpRequestMessage, SplitUrl, read_request}
use relay_x.Writer.{Written, write_response}
use relay_x.Pipeline.{Libraries, Draw}
use relay_x.Client.{ClientSettings, Sent, send}

-- What the connection's client gets, and the replay cache of the relay client behind it.
pub record Served : Type 0 where
  pub written : Written
  pub cache : Option ReplayCache

module _ (lib : Libraries) (urlsplit : Text → Result SplitUrl) (settings : ClientSettings)
    (post : Bytes → Result Bytes) (max_header_bytes : ℕ) where
  -- the request that is sent
  unfoldable pub relay_request : Text → Bytes → Result RelayRequest
  relay_request hex stream = do
    (m, left) ←
        read_request lib.unicode urlsplit stream max_header_bytes
          settings.limits.max_request_body_bytes
    new_request lib.unicode hex m.method m.scheme m.host m.port m.path m.query
        (filter_forward_headers lib.unicode m.headers) m.body

  abbrev pub send_request : Option ReplayCache → ℕ → Draw → Result RelayRequest → Sent
  send_request cache now_ms draw (err e) = (err e, cache)
  send_request cache now_ms draw (ok r) = send lib settings post r cache now_ms draw

  -- `except Exception`
  abbrev pub or_bad_request : Result Message → Result Message
  or_bad_request (ok reply) = ok reply
  or_bad_request (err e) = do
    x ← new_error none (str "bad_request") (str "Request could not be processed") false
    ok (error x)

  abbrev pub write_reply : Result Message → Written
  write_reply (ok reply) = write_response lib.unicode reply
  write_reply (err e) = record { output = []; outcome = err e }

  -- LocalProxy.handle
  unfoldable pub handle : Text → Option ReplayCache → ℕ → Draw → Bytes → Served
  handle hex cache now_ms draw stream =
      let (sent, cache') = send_request cache now_ms draw (relay_request hex stream) in
      record { written = write_reply (or_bad_request sent); cache = cache' }
