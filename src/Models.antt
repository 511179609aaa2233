-- ===== src/Models.antt =====
-- relayx/protocol/models.py: the messages and the validation that their constructors make.
-- The fields are typed, so the `isinstance` tests of the source, which the types decide, have no
-- counterpart. `int` fields are integers, since a decoder or a port text may give negative ones.
pub mod Headers
mod Tests
use relay_x.Prelude.{
  ℕ, List, [], ◌∷◌, Bool, true, false, ◌&&◌, ◌||◌, not, ltb, ◌==◌, length, any, Option, some, none,
}
use relay_x.Prelude.Int.{ℤ, pos, negsuc, leb_ℤ}
use relay_x.Text.{Text, Bytes, str}
use relay_x.Text.Equality.{text_eq, one_of}
use relay_x.Text.Unicode.{Unicode}
use relay_x.Text.Split.{has_char, has_text, starts_with}
use relay_x.Errors.{Result, ok, err, ◌>>=◌, ◌>>◌, raise_if, protocol_error}

abbrev pub HeaderList : Type 0
HeaderList = List (Text × Text)

-- _ERROR_CODES
abbrev pub error_codes : List Text
error_codes =
    str "bad_request"
    ∷ str "unauthorized"
    ∷ str "invalid_packet"
    ∷ str "decrypt_failed"
    ∷ str "replay_detected"
    ∷ str "packet_expired"
    ∷ str "packet_from_future"
    ∷ str "replay_cache_full"
    ∷ str "unsupported_version"
    ∷ str "unsupported_method"
    ∷ str "unsupported_transfer_encoding"
    ∷ str "request_too_large"
    ∷ str "response_too_large"
    ∷ str "upstream_timeout"
    ∷ str "upstream_connection_failed"
    ∷ str "upstream_protocol_error"
    ∷ str "compression_failed"
    ∷ str "decompression_failed"
    ∷ str "internal_error"
    ∷ []

-- _TOKEN_SEPARATORS: ()<>@,;:\"/[]?={} and space and tab
abbrev pub token_separators : List ℕ
token_separators =
    b'(' ∷ b')' ∷ b'<' ∷ b'>' ∷ b'@' ∷ b',' ∷ b';' ∷ b':' ∷ 92 ∷ 34 ∷ b'/' ∷ b'[' ∷ b']' ∷ b'?'
    ∷ b'=' ∷ b'{' ∷ b'}' ∷ 32 ∷ 9 ∷ []

abbrev pub is_ctl : ℕ → Bool
is_ctl ch = ltb ch 32 || ch == 127

-- _has_ctl
abbrev pub has_ctl : Text → Bool
has_ctl = any is_ctl

abbrev pub is_empty : Text → Bool
is_empty [] = true
is_empty (c ∷ s) = false

abbrev pub is_separator : ℕ → Bool
is_separator ch = has_char ch token_separators

unfoldable pub validate_http_token : Text → Result (Unit {0})
validate_http_token value =
    raise_if (is_empty value || (has_ctl value || any is_separator value)) protocol_error

-- "\r" in value or "\n" in value
abbrev pub has_line_break : Text → Bool
has_line_break value = has_char 13 value || has_char 10 value

unfoldable pub validate_header_list : HeaderList → Result (Unit {0})
validate_header_list [] = ok tt
validate_header_list ((name, header_value) ∷ rest) = do
  validate_http_token name
  raise_if (has_line_break header_value) protocol_error
  validate_header_list rest

pub record RelayRequest : Type 0 where
  pub request_id : Text
  pub method : Text
  pub scheme : Text
  pub host : Text
  pub port : Option ℤ
  pub path : Text
  pub query : Text
  pub headers : HeaderList
  pub body : Bytes
  pub version : ℤ
  pub kind : Text

pub record RelayResponse : Type 0 where
  pub request_id : Text
  pub status_code : ℤ
  pub reason_phrase : Option Text
  pub headers : HeaderList
  pub body : Bytes
  pub version : ℤ
  pub kind : Text

pub record RelayError : Type 0 where
  pub request_id : Option Text
  pub error_code : Text
  pub message : Text
  pub retryable : Bool
  pub version : ℤ
  pub kind : Text

pub data Message : Type 0 where
  request : RelayRequest → Message
  response : RelayResponse → Message
  error : RelayError → Message

unfoldable pub validate_request_id : Text → Result (Unit {0})
validate_request_id request_id =
    raise_if
      (not (length request_id == 32)
        || any (λ c. not (has_char c (str "0123456789abcdef"))) request_id)
      protocol_error

-- version != VERSION
abbrev pub is_other_version : ℤ → Bool
is_other_version (pos v) = not (v == 1)
is_other_version (negsuc v) = true

unfoldable pub validate_common : ℤ → Text → Text → Result (Unit {0})
unfolding validate_request_id
validate_common version type_name request_id = do
  raise_if (is_other_version version) protocol_error
  raise_if (not (one_of type_name (str "request" ∷ str "response" ∷ str "error" ∷ [])))
      protocol_error
  validate_request_id request_id

-- port is not None and not (1 <= port <= 65535)
abbrev pub is_bad_port : Option ℤ → Bool
is_bad_port none = false
is_bad_port (some p) = not (leb_ℤ (pos 1) p && leb_ℤ p (pos 65535))

abbrev pub is_bad_host : Text → Bool
is_bad_host host =
    is_empty host
    || (has_ctl host || (any (λ ch. has_char ch host) (str "/?#@") || has_text (str "://") host))

abbrev pub is_bad_path : Text → Bool
is_bad_path path =
    not (starts_with (str "/") path)
    || (has_ctl path || (has_text (str "://") path || has_char b'?' path))

module _ (u : Unicode) where
  -- RelayRequest.__post_init__
  unfoldable pub validate_request : RelayRequest → Result (Unit {0})
  validate_request r = do
    validate_common r.version r.kind r.request_id
    raise_if (not (text_eq r.kind (str "request"))) protocol_error
    validate_http_token r.method
    raise_if (text_eq (u.upper r.method) (str "CONNECT")) protocol_error
    raise_if (not (one_of r.scheme (str "http" ∷ str "https" ∷ []))) protocol_error
    raise_if (is_bad_host r.host) protocol_error
    raise_if (is_bad_port r.port) protocol_error
    raise_if (is_bad_path r.path) protocol_error
    raise_if (has_ctl r.query) protocol_error
    validate_header_list r.headers

  -- RelayRequest(...) with the default version and type
  unfoldable pub new_request :
      Text → Text → Text → Text → Option ℤ → Text → Text → HeaderList → Bytes → Result RelayRequest
  new_request request_id method scheme host port path query headers body =
      let r : RelayRequest = record {
        request_id = request_id;
        method = method;
        scheme = scheme;
        host = host;
        port = port;
        path = path;
        query = query;
        headers = headers;
        body = body;
        version = pos 1;
        kind = str "request";
      } in
      validate_request r >> ok r

abbrev pub is_bad_reason : Option Text → Bool
is_bad_reason none = false
is_bad_reason (some reason) = has_line_break reason

-- RelayResponse.__post_init__
unfoldable pub validate_response : RelayResponse → Result (Unit {0})
validate_response r = do
  validate_common r.version r.kind r.request_id
  raise_if (not (leb_ℤ (pos 100) r.status_code && leb_ℤ r.status_code (pos 599))) protocol_error
  raise_if (is_bad_reason r.reason_phrase) protocol_error
  validate_header_list r.headers

unfoldable pub new_response : Text → ℤ → Option Text → HeaderList → Bytes → Result RelayResponse
new_response request_id status_code reason_phrase headers body =
    let r : RelayResponse = record {
      request_id = request_id;
      status_code = status_code;
      reason_phrase = reason_phrase;
      headers = headers;
      body = body;
      version = pos 1;
      kind = str "response";
    } in
    validate_response r >> ok r

abbrev pub validate_optional_id : Option Text → Result (Unit {0})
validate_optional_id none = ok tt
validate_optional_id (some request_id) = validate_request_id request_id

-- RelayError.__post_init__
unfoldable pub validate_error : RelayError → Result (Unit {0})
validate_error e = do
  validate_optional_id e.request_id
  raise_if (is_other_version e.version || not (text_eq e.kind (str "error"))) protocol_error
  raise_if (not (one_of e.error_code error_codes)) protocol_error
  raise_if (has_line_break e.message) protocol_error

unfoldable pub new_error : Option Text → Text → Text → Bool → Result RelayError
new_error request_id error_code message retryable =
    let e : RelayError = record {
      request_id = request_id;
      error_code = error_code;
      message = message;
      retryable = retryable;
      version = pos 1;
      kind = str "error";
    } in
    validate_error e >> ok e
