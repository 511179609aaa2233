-- ===== src/Parser.antt =====
-- relayx/http/parser.py and relayx/http/messages.py: the request parser of the local proxy.
-- The reader is the list of the bytes that the connection still gives, behind which it ends. The
-- function urlsplit of urllib is a parameter.
pub mod Reading
pub mod Request
pub mod Framing
mod Tests
use relay_x.Prelude.{
  ℕ, ◌-◌, List, [], ◌∷◌, ◌++◌, Bool, true, false, ◌||◌, not, ltb, leb, ◌==◌, length, take, drop,
  any, filter, Option, some, none, if◌then◌else◌,
}
use relay_x.Prelude.Int.{ℤ, pos, negsuc, ltb_ℤ, pos_part}
use relay_x.Text.{Text, Bytes, str}
use relay_x.Text.Equality.{text_eq}
use relay_x.Text.Unicode.{Unicode}
use relay_x.Text.Number.{parse_int, is_decimal}
use relay_x.Text.Split.{has_char, has_text, starts_with, cut, lstrip}
use relay_x.Errors.{
  Exn, Result, ok, err, ◌>>=◌, ◌>>◌, raise_if, protocol_error, request_too_large, incomplete_read,
  value_error,
}
use relay_x.Models.{HeaderList, is_empty, validate_http_token, validate_header_list}

pub record HttpRequestMessage : Type 0 where
  pub method : Text
  pub scheme : Text
  pub host : Text
  pub port : Option ℤ
  pub path : Text
  pub query : Text
  pub headers : HeaderList
  pub body : Bytes

-- The parts of a SplitResult that the parser reads; `port` may raise a ValueError.
pub record SplitUrl : Type 0 where
  pub scheme : Text
  pub netloc : Text
  pub path : Text
  pub query : Text
  pub hostname : Option Text
  pub port : Result (Option ℤ)

-- The variables of read_request behind the checks on the head.
pub record ParsedHead : Type 0 where
  pub method : Text
  pub target : Text
  pub headers : HeaderList
  pub body_len : ℤ

abbrev pub crlf : Text
crlf = 13 ∷ 10 ∷ []

abbrev pub head_end : Bytes
head_end = 13 ∷ 10 ∷ 13 ∷ 10 ∷ []

-- behind the loop of _read_headers
abbrev pub headers_read : ℕ → Bytes → Bytes → Result (Bytes × Bytes)
headers_read max_header_bytes read stream =
    if ltb max_header_bytes (length read) then err request_too_large else ok (read, stream)

-- _read_headers: what was read, and what the connection still gives. `read` is what was read so far.
unfoldable pub read_headers : ℕ → Bytes → Bytes → Result (Bytes × Bytes)
read_headers max read [] =
    if has_text head_end read
    then headers_read max read []
    else if leb max (length read)
    then err request_too_large
    else err protocol_error
read_headers max read (b ∷ stream) =
    let more = read_headers max (read ++ b ∷ []) stream in
    if has_text head_end read
    then headers_read max read (b ∷ stream)
    else if leb max (length read)
    then err request_too_large
    else more

-- text.split("\r\n"), as the first line and the others
unfoldable pub split_lines : Text → Text × List Text
split_lines [] = ([], [])
split_lines (c ∷ []) = (c ∷ [], [])
split_lines (c ∷ d ∷ s) =
    let (first, others) = split_lines (d ∷ s) in
    let (first', others') = split_lines s in
    if text_eq (c ∷ d ∷ []) crlf then ([], first' ∷ others') else (c ∷ first, others)

-- method, target, version = lines[0].split(" ", 2)
unfoldable pub request_line : Text → Result (Text × Text × Text)
request_line line = elim (cut 32 line) [
  | none ↦ err protocol_error
  | some (method, rest) ↦ elim (cut 32 rest) [
    | none ↦ err protocol_error
    | some (target, version) ↦ ok (method, target, version)
  ]
]

abbrev pub is_blank : ℕ → Bool
is_blank c = has_char c (32 ∷ 9 ∷ [])

abbrev pub starts_blank : Text → Bool
starts_blank [] = true
starts_blank (c ∷ line) = is_blank c

-- the body of the loop over the lines
unfoldable pub header_line : Text → Result (Text × Text)
header_line line = if starts_blank line then err protocol_error else elim (cut b':' line) [
  | none ↦ err protocol_error
  | some (name, value) ↦ ok (name, lstrip is_blank value)
]

unfoldable pub header_lines : List Text → Result HeaderList
header_lines [] = ok []
header_lines (line ∷ lines) = do h ← header_line line; hs ← header_lines lines; ok (h ∷ hs)

-- reader.readexactly(n)
abbrev pub read_exactly : ℕ → Bytes → Result (Bytes × Bytes)
read_exactly n stream =
    if ltb (length stream) n then err incomplete_read else ok (take n stream, drop n stream)

-- authority.rsplit("@", 1)[-1]
unfoldable pub after_last : ℕ → Text → Text
after_last c [] = []
after_last c (d ∷ s) =
    let rest = after_last c s in if has_char c s then rest else if d == c then s else d ∷ s

-- host.partition(":"), without the separator
abbrev pub partition : ℕ → Text → Text × Text
partition c s = elim (cut c s) [ none ↦ (s, []) | some (a, b) ↦ (a, b) ]

abbrev pub or_slash : Text → Text
or_slash path = if is_empty path then str "/" else path

abbrev pub text_or_empty : Option Text → Text
text_or_empty none = []
text_or_empty (some s) = s

-- `except ValueError`
abbrev pub as_protocol_error {ℓ} : {A : Type ℓ} → Result A → Result A
as_protocol_error (ok a) = ok a
as_protocol_error (err value_error) = err protocol_error
as_protocol_error (err e) = err e

module _ (u : Unicode) where
  -- the values of the headers with a name
  abbrev pub is_named : Text → Text × Text → Bool
  is_named name h = text_eq (u.lower h.0) name

  abbrev pub content_length_of : HeaderList → Result ℤ
  content_length_of [] = ok (pos 0)
  content_length_of ((name, value) ∷ []) = do
    raise_if (not (is_decimal u value)) protocol_error
    parse_int u value
  content_length_of (h ∷ h' ∷ hs) = err protocol_error

  unfoldable pub content_length : HeaderList → Result ℤ
  content_length headers = content_length_of (filter (is_named (str "content-length")) headers)

  abbrev pub only_value : HeaderList → Result Text
  only_value ((name, value) ∷ []) = ok value
  only_value _ = err protocol_error

  unfoldable pub single_host_header : HeaderList → Result Text
  single_host_header headers = only_value (filter (is_named (str "host")) headers)

  abbrev pub host_port : Text → Result (Option ℤ)
  host_port [] = ok none
  host_port (c ∷ s) = do n ← as_protocol_error (parse_int u (c ∷ s)); ok (some n)

  -- read_request between the reading of the head and that of the body
  unfoldable pub parse_head : ℕ → Text → Result ParsedHead
  parse_head max_body_bytes text = do
    let (first, lines) = split_lines text
    (method, target, version) ← request_line first
    validate_http_token method
    raise_if (not (text_eq version (str "HTTP/1.1")) || text_eq (u.upper method) (str "CONNECT"))
        protocol_error
    headers ← header_lines lines
    validate_header_list headers
    raise_if (any (is_named (str "transfer-encoding")) headers) protocol_error
    body_len ← content_length headers
    raise_if (ltb_ℤ (pos max_body_bytes) body_len) request_too_large
    ok (record { method = method; target = target; headers = headers; body_len = body_len })

  module _ (urlsplit : Text → Result SplitUrl) where
    -- the branch for an absolute target
    unfoldable pub absolute_target :
        Text → Text → HeaderList → Bytes → Text → Result HttpRequestMessage
    absolute_target method target headers body host_header = do
      parsed ← urlsplit target
      port ← as_protocol_error parsed.port
      raise_if (not (text_eq (u.lower (after_last b'@' parsed.netloc)) (u.lower host_header)))
          protocol_error
      ok (record {
        method = method;
        scheme = parsed.scheme;
        host = text_or_empty parsed.hostname;
        port = port;
        path = or_slash parsed.path;
        query = parsed.query;
        headers = headers;
        body = body;
      })

    -- the branch for another target
    unfoldable pub origin_target :
        Text → Text → HeaderList → Bytes → Text → Result HttpRequestMessage
    origin_target method target headers body host_header = do
      let (host, port_s) = partition b':' host_header
      port ← host_port port_s
      parsed ← urlsplit target
      ok (record {
        method = method;
        scheme = str "http";
        host = host;
        port = port;
        path = or_slash parsed.path;
        query = parsed.query;
        headers = headers;
        body = body;
      })

    -- _target
    unfoldable pub target_of : Text → Text → HeaderList → Bytes → Result HttpRequestMessage
    target_of method target headers body = do
      host_header ← single_host_header headers
      if starts_with (str "http://") target || starts_with (str "https://") target
          then absolute_target method target headers body host_header
          else origin_target method target headers body host_header

    -- read_request: the request, and what the connection still gives
    unfoldable pub read_request : Bytes → ℕ → ℕ → Result (HttpRequestMessage × Bytes)
    read_request stream max_header_bytes max_body_bytes = do
      (head, rest) ← read_headers max_header_bytes [] stream
      parsed ← parse_head max_body_bytes (take (length head - 4) head)
      (body, left) ← read_exactly (pos_part parsed.body_len) rest
      message ← target_of parsed.method parsed.target parsed.headers body
      ok (message, left)
