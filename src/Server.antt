-- ===== src/Server.antt =====
-- relayx/server/endpoint.py and relayx/server/forwarder.py: authentication of the carrier, the
-- bounded read of its body, the forwarding to the upstream server, and the handler of POST /relay.
-- FastAPI and httpx are parameters: the request's parts, and what a call upstream does.
pub mod Carrier
pub mod Replies
pub mod Forwarding
pub mod Relay
mod Tests
use relay_x.Prelude.{
  ℕ, ◌+◌, List, [], ◌∷◌, ◌++◌, Bool, true, false, not, ◌&&◌, ◌||◌, ltb, length, all, Option, some,
  none, if◌then◌else◌,
}
use relay_x.Prelude.Int.{ℤ}
use relay_x.Text.{Text, Bytes, str}
use relay_x.Text.Decimal.{show_int}
use relay_x.Text.Equality.{text_eq}
use relay_x.Text.Unicode.{Unicode}
use relay_x.Text.Split.{cut, split_at}
use relay_x.Constants.{relay_content_type}
use relay_x.Errors.{
  Exn, Result, ok, err, ◌>>=◌, ◌>>◌, raise_if, http_exception, replay_detected, packet_expired,
  packet_from_future, replay_cache_full, request_too_large, response_too_large, value_error,
  foreign,
}
use relay_x.Replay.{ReplayCache}
use relay_x.Models.{
  HeaderList, RelayRequest, RelayResponse, RelayError, Message, request, response, error, is_empty,
  new_response, new_error,
}
use relay_x.Headers.{filter_forward_headers}
use relay_x.Pipeline.{Libraries, Limits, Draw, encode_message, decode_message}

abbrev pub is_ascii_text : Text → Bool
is_ascii_text = all (λ c. ltb c 128)

-- hmac.compare_digest of two `str`, which refuses text that is not ASCII
unfoldable pub compare_digest : Text → Text → Result Bool
compare_digest a b = if is_ascii_text a && is_ascii_text b then ok (text_eq a b) else err foreign

-- len(parts) != 2 or parts[0] != "Bearer" or not parts[1]; then the comparison
unfoldable pub check_credentials : Option (Text × Text) → Text → Result (Unit {0})
check_credentials none token = err (http_exception 401)
check_credentials (some (scheme, credentials)) token = do
  raise_if (not (text_eq scheme (str "Bearer")) || is_empty credentials) (http_exception 401)
  same ← compare_digest credentials token
  raise_if (not same) (http_exception 401)

unfoldable pub authenticate : Option Text → Text → Result (Unit {0})
authenticate none token = err (http_exception 401)
authenticate (some header) token = do
  raise_if (is_empty header) (http_exception 401)
  check_credentials (cut 32 header) token

-- `body` is what was read so far; the chunks are those that the stream gives.
unfoldable pub read_chunks : ℕ → Bytes → List Bytes → Result Bytes
read_chunks max_bytes body [] = ok body
read_chunks max_bytes body (chunk ∷ chunks) =
    let rest = read_chunks max_bytes (body ++ chunk) chunks in
    if ltb max_bytes (length body + length chunk) then err (http_exception 413) else rest

unfoldable pub read_limited_body : List Bytes → ℕ → Result Bytes
read_limited_body chunks max_bytes = read_chunks max_bytes [] chunks

-- _error_from_exception
unfoldable pub error_from_exception : Exn → Option Text → Result RelayError
error_from_exception replay_detected id =
    new_error id (str "replay_detected") (str "Replay detected") false
error_from_exception packet_expired id =
    new_error id (str "packet_expired") (str "Packet expired") false
error_from_exception packet_from_future id =
    new_error id (str "packet_from_future") (str "Packet timestamp is too far in the future") false
error_from_exception replay_cache_full id =
    new_error id (str "replay_cache_full") (str "Replay cache is full") true
error_from_exception request_too_large id =
    new_error id (str "request_too_large") (str "Request body is too large") false
error_from_exception response_too_large id =
    new_error id (str "response_too_large") (str "Response body is too large") false
error_from_exception _ id =
    new_error id (str "invalid_packet") (str "Relay packet could not be processed") false

-- What httpx raises: TimeoutException, ConnectError, another HTTPError, or anything else.
pub data Failure : Type 0 where
  timeout connect_error http_error other : Failure

-- A call upstream fails at once, or gives a status, a reason phrase, headers, the chunks of its
-- body, and perhaps a failure behind them.
pub data Upstream : Type 0 where
  failed : Failure → Upstream
  replied : ℤ → Text → HeaderList → List Bytes → Option Failure → Upstream

-- The `except` clauses of `forward`.
unfoldable pub failure_reply : RelayRequest → Failure → Result Message
failure_reply r timeout = do
  e ← new_error (some r.request_id) (str "upstream_timeout") (str "Upstream request timed out") true
  ok (error e)
failure_reply r connect_error = do
  e ←
      new_error (some r.request_id) (str "upstream_connection_failed")
        (str "Could not connect to upstream") true
  ok (error e)
failure_reply r http_error = do
  e ← new_error (some r.request_id) (str "upstream_protocol_error") (str "Upstream HTTP error") true
  ok (error e)
failure_reply r other = err foreign

-- What is asked of httpx: the arguments of client.stream.
pub record Outgoing : Type 0 where
  pub method : Text
  pub url : Text
  pub headers : HeaderList
  pub content : Bytes

-- request.host if port is None else f"{request.host}:{port}"
abbrev pub netloc_of : Text → Option ℤ → Text
netloc_of host none = host
netloc_of host (some port) = host ++ (b':' ∷ show_int port)

unfoldable pub url_of : RelayRequest → Text
url_of r =
    r.scheme
    ++ (str "://"
        ++ (netloc_of r.host r.port
            ++ (r.path ++ (if is_empty r.query then [] else b'?' ∷ r.query))))

module _ (u : Unicode) where
  unfoldable pub outgoing : RelayRequest → Outgoing
  outgoing r = record {
    method = r.method;
    url = url_of r;
    headers = filter_forward_headers u r.headers;
    content = r.body;
  }

  -- behind the last chunk
  unfoldable pub finish :
      RelayRequest → ℤ → Text → HeaderList → Bytes → Option Failure → Result Message
  finish r status reason headers body (some failure) = failure_reply r failure
  finish r status reason headers body none = do
    reply ← new_response r.request_id status (some reason) (filter_forward_headers u headers) body
    ok (response reply)

  -- the loop over `aiter_bytes`
  unfoldable pub collect :
      RelayRequest
      → ℕ
      → ℤ
      → Text
      → HeaderList
      → Bytes
      → List Bytes
      → Option Failure
      → Result Message
  collect r max status reason headers body [] failure = finish r status reason headers body failure
  collect r max status reason headers body (chunk ∷ chunks) failure =
      let chunks' = body ++ chunk in
      let rest = collect r max status reason headers chunks' chunks failure in
      if ltb max (length chunks')
      then (do
        e ←
            new_error (some r.request_id) (str "response_too_large")
              (str "Upstream response is too large") false
        ok (error e))
      else rest

  -- Forwarder.forward; `upstream` is what the call of httpx does with the request made of it.
  abbrev pub respond : ℕ → RelayRequest → Upstream → Result Message
  respond max r (failed failure) = failure_reply r failure
  respond max r (replied status reason headers chunks failure) =
      collect r max status reason headers [] chunks failure

  unfoldable pub forward : (Outgoing → Upstream) → ℕ → RelayRequest → Result Message
  forward upstream max r = respond max r (upstream (outgoing r))

-- The settings that the handler reads.
pub record ServerSettings : Type 0 where
  pub auth_token : Text
  pub key : Bytes
  pub limits : Limits
  pub compression_enabled : Bool
  pub compression_threshold_bytes : ℕ

-- The parts of the carrier request that the handler reads. `content_type` is "" if it is missing.
pub record CarrierRequest : Type 0 where
  pub authorization : Option Text
  pub content_type : Text
  pub chunks : List Bytes

-- The state behind a request, with the message that was forwarded upstream, if one was.
pub record Handled : Type 0 where
  pub result : Result Bytes
  pub cache : Option ReplayCache
  pub forwarded : Option RelayRequest

module _ (lib : Libraries) (upstream : Outgoing → Upstream) (settings : ServerSettings) where
  -- request.headers.get("content-type", "").split(";")[0].lower() != RELAY_CONTENT_TYPE
  abbrev pub is_wrong_type : Text → Bool
  is_wrong_type content_type =
      not (text_eq (lib.unicode.lower (split_at b';' content_type).0) relay_content_type)

  -- the guards in front of the body's processing
  unfoldable pub accept_body : CarrierRequest → Result Bytes
  accept_body req = do
    authenticate req.authorization settings.auth_token
    raise_if (is_wrong_type req.content_type) (http_exception 415)
    read_limited_body req.chunks settings.limits.max_ciphertext_bytes

  -- the `except Exception` clause
  abbrev pub reply_or_error : Option Text → Result Message → Result Message
  reply_or_error id (ok reply) = ok reply
  reply_or_error id (err e) = do x ← error_from_exception e id; ok (error x)

  -- the `try` block behind decode_message
  unfoldable pub process : Result Message → Result Message
  process (ok (request r)) =
      reply_or_error (some r.request_id)
        (forward lib.unicode upstream settings.limits.max_response_body_bytes r)
  process (ok _) = reply_or_error none (err value_error)
  process (err e) = reply_or_error none (err e)

  abbrev pub forwarded_request : Result Message → Option RelayRequest
  forwarded_request (ok (request r)) = some r
  forwarded_request _ = none

  unfoldable pub encode_reply : Draw → Result Message → Result Bytes
  encode_reply draw reply = do
    message ← reply
    encode_message lib message settings.key settings.compression_enabled
        settings.compression_threshold_bytes draw

  abbrev pub handle_body : Option ReplayCache → ℕ → Draw → Result Bytes → Handled
  handle_body cache now_ms draw (err e) = record { result = err e; cache = cache; forwarded = none }
  handle_body cache now_ms draw (ok body) =
      let (decoded, cache') = decode_message lib body settings.key cache settings.limits now_ms in
      record {
        result = encode_reply draw (process decoded);
        cache = cache';
        forwarded = forwarded_request decoded;
      }

  -- relay: the handler of POST /relay
  unfoldable pub relay : Option ReplayCache → ℕ → Draw → CarrierRequest → Handled
  relay cache now_ms draw req = handle_body cache now_ms draw (accept_body req)
