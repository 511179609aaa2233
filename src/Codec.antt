-- ===== src/Codec.antt =====
-- relayx/protocol/codec.py: the strict msgpack schema of the messages.
-- msgpack is a parameter; a message is turned into the dictionary that msgpack packs, and back.
pub mod Data
pub mod Roundtrip
pub mod Strict
pub mod ErrorMessages
mod Tests
use relay_x.Prelude.{
  ℕ, List, [], ◌∷◌, Bool, true, false, ◌&&◌, not, ◌==◌, Option, some, none, ◌≡◌, if◌then◌else◌,
}
use relay_x.Prelude.Int.{ℤ}
use relay_x.Text.{Text, Bytes, str}
use relay_x.Text.Equality.{text_eq}
use relay_x.Text.Unicode.{Unicode}
use relay_x.Constants.{type_request, type_response, type_error}
use relay_x.Errors.{Exn, Result, ok, err, ◌>>=◌, ◌>>◌, raise_if, serialization_error, foreign}
use relay_x.Models.{
  HeaderList, RelayRequest, RelayResponse, RelayError, Message, request, response, error,
  new_request, new_response, new_error,
}
use relay_x.Codec.Data.{
  Value, Items, Fields, Key, text_key, done, item, end, field, get, put, only_keys, has_keys,
  equals_one, equals_text, is_nil,
}

-- msgpack.packb(data, use_bin_type=True, strict_types=True) and
-- msgpack.unpackb(data, raw=False, strict_map_key=True); `none` is any exception.
pub record Msgpack : Type 0 where
  pub packb : Value → Option Bytes
  pub unpackb : Bytes → Option Value

-- What was packed is unpacked.
pub record IsMsgpack (m : Msgpack) : Type 0 where
  pub unpackb-packb : (v : Value) (b : Bytes) → m.packb v ≡ some b → m.unpackb b ≡ some v

abbrev pub request_keys : List Text
request_keys =
    str "version"
    ∷ str "type"
    ∷ str "request_id"
    ∷ str "method"
    ∷ str "scheme"
    ∷ str "host"
    ∷ str "port"
    ∷ str "path"
    ∷ str "query"
    ∷ str "headers"
    ∷ str "body"
    ∷ []

abbrev pub response_keys : List Text
response_keys =
    str "version"
    ∷ str "type"
    ∷ str "request_id"
    ∷ str "status_code"
    ∷ str "reason_phrase"
    ∷ str "headers"
    ∷ str "body"
    ∷ []

abbrev pub error_keys : List Text
error_keys =
    str "version"
    ∷ str "type"
    ∷ str "request_id"
    ∷ str "error_code"
    ∷ str "message"
    ∷ str "retryable"
    ∷ []

-- dataclasses.asdict keeps tuples.
unfoldable pub header_tuples : HeaderList → Items
header_tuples [] = done
header_tuples ((name, value) ∷ rest) =
    item (Value.tuple (item (Value.str name) (item (Value.str value) done))) (header_tuples rest)

abbrev pub optional_int : Option ℤ → Value
optional_int none = Value.nil
optional_int (some i) = Value.int i

abbrev pub optional_str : Option Text → Value
optional_str none = Value.nil
optional_str (some s) = Value.str s

abbrev pub entry : Text → Value → Fields → Fields
entry k v m = field (text_key k) v m

-- asdict(message), in the order of the dataclass's fields
unfoldable pub asdict : Message → Fields
unfolding header_tuples
asdict (request r) = entry (str "request_id") (Value.str r.request_id) (
    entry (str "method") (Value.str r.method) (
      entry (str "scheme") (Value.str r.scheme) (
        entry (str "host") (Value.str r.host) (
          entry (str "port") (optional_int r.port) (
            entry (str "path") (Value.str r.path) (
              entry (str "query") (Value.str r.query) (
                entry (str "headers") (Value.tuple (header_tuples r.headers)) (
                  entry (str "body") (Value.bin r.body) (
                    entry (str "version") (Value.int r.version)
                      (entry (str "type") (Value.str r.kind) end))))))))))
asdict (response r) = entry (str "request_id") (Value.str r.request_id) (
    entry (str "status_code") (Value.int r.status_code) (
      entry (str "reason_phrase") (optional_str r.reason_phrase) (
        entry (str "headers") (Value.tuple (header_tuples r.headers)) (
          entry (str "body") (Value.bin r.body) (
            entry (str "version") (Value.int r.version)
              (entry (str "type") (Value.str r.kind) end))))))
asdict (error e) = entry (str "request_id") (optional_str e.request_id) (
    entry (str "error_code") (Value.str e.error_code) (
      entry (str "message") (Value.str e.message) (
        entry (str "retryable") (Value.bool e.retryable) (
          entry (str "version") (Value.int e.version)
            (entry (str "type") (Value.str e.kind) end)))))

-- [list(pair) for pair in pairs]
unfoldable pub pairs_to_lists : Items → Items
pairs_to_lists done = done
pairs_to_lists (item (Value.tuple xs) rest) = item (Value.list xs) (pairs_to_lists rest)
pairs_to_lists (item v rest) = item v (pairs_to_lists rest)

-- data.get("headers", ())
abbrev pub items_or_empty : Option Value → Items
items_or_empty (some (Value.tuple xs)) = xs
items_or_empty _ = done

-- The dictionary that `dumps` packs: asdict(message), with data["headers"] assigned.
unfoldable pub to_dict : Message → Fields
unfolding asdict pairs_to_lists get put
to_dict message =
    let d = asdict message in
    put (str "headers") (Value.list (pairs_to_lists (items_or_empty (get (str "headers") d)))) d

-- raw[key]
abbrev pub require : Text → Fields → Result Value
require key raw = elim (get key raw) [ none ↦ err foreign | some v ↦ ok v ]

abbrev pub as_str : Value → Result Text
as_str (Value.str s) = ok s
as_str _ = err serialization_error

abbrev pub as_optional_str : Value → Result (Option Text)
as_optional_str (Value.str s) = ok (some s)
as_optional_str Value.nil = ok none
as_optional_str _ = err serialization_error

abbrev pub as_int : Value → Result ℤ
as_int (Value.int i) = ok i
as_int _ = err serialization_error

abbrev pub as_optional_int : Value → Result (Option ℤ)
as_optional_int (Value.int i) = ok (some i)
as_optional_int Value.nil = ok none
as_optional_int _ = err serialization_error

abbrev pub as_bool : Value → Result Bool
as_bool (Value.bool b) = ok b
as_bool _ = err serialization_error

abbrev pub as_bytes : Value → Result Bytes
as_bytes (Value.bin b) = ok b
as_bytes _ = err serialization_error

unfoldable pub require_str : Fields → Text → Result Text
require_str raw key = require key raw >>= as_str

unfoldable pub require_optional_str : Fields → Text → Result (Option Text)
require_optional_str raw key = require key raw >>= as_optional_str

unfoldable pub require_int : Fields → Text → Result ℤ
require_int raw key = require key raw >>= as_int

unfoldable pub require_optional_int : Fields → Text → Result (Option ℤ)
require_optional_int raw key = require key raw >>= as_optional_int

unfoldable pub require_bool : Fields → Text → Result Bool
require_bool raw key = require key raw >>= as_bool

unfoldable pub require_body : Fields → Result Bytes
require_body raw = require (str "body") raw >>= as_bytes

-- the loop of `_headers`
unfoldable pub header_pairs : Items → Result HeaderList
header_pairs done = ok []
header_pairs (item (Value.list (item (Value.str name) (item (Value.str value) done))) rest) = do
  more ← header_pairs rest
  ok ((name, value) ∷ more)
header_pairs (item _ rest) = err serialization_error

unfoldable pub parse_headers : Value → Result HeaderList
unfolding header_pairs
parse_headers (Value.list xs) = header_pairs xs
parse_headers _ = err serialization_error

unfoldable pub check_keys : Fields → List Text → Result (Unit {0})
check_keys raw keys = raise_if (not (only_keys keys raw && has_keys keys raw)) serialization_error

-- TYPE_NAMES.get(type_id)
abbrev pub type_names : ℕ → Option Text
type_names type_id =
    if type_id == type_request
    then some (str "request")
    else if type_id == type_response
    then some (str "response")
    else if type_id == type_error
    then some (str "error")
    else none

-- TYPE_NAMES.get(expected_type) != type_name
abbrev pub differs : Option Text → Value → Bool
differs none type_name = not (is_nil type_name)
differs (some t) type_name = not (equals_text t type_name)

-- expected_type is not None and TYPE_NAMES.get(expected_type) != type_name
abbrev pub is_mismatch : Option ℕ → Value → Bool
is_mismatch none type_name = false
is_mismatch (some t) type_name = differs (type_names t) type_name

-- raw.get(key), which is None where the key is missing
abbrev pub value_or_nil : Option Value → Value
value_or_nil none = Value.nil
value_or_nil (some v) = v

-- `except Exception`: whatever was raised becomes a SerializationError.
abbrev pub as_serialization {ℓ} : {A : Type ℓ} → Result A → Result A
as_serialization (ok a) = ok a
as_serialization (err e) = err serialization_error

-- message_type: NAME_TYPES[message.type]
abbrev pub message_type_of : Text → Result ℕ
message_type_of kind =
    if text_eq kind (str "request")
    then ok type_request
    else if text_eq kind (str "response")
    then ok type_response
    else if text_eq kind (str "error")
    then ok type_error
    else err foreign

abbrev pub kind_of : Message → Text
kind_of (request r) = r.kind
kind_of (response r) = r.kind
kind_of (error e) = e.kind

unfoldable pub message_type : Message → Result ℕ
message_type message = message_type_of (kind_of message)

module _ (u : Unicode) where
  unfoldable pub parse_request : Fields → Result RelayRequest
  parse_request raw = do
    check_keys raw request_keys
    request_id ← require_str raw (str "request_id")
    method ← require_str raw (str "method")
    scheme ← require_str raw (str "scheme")
    host ← require_str raw (str "host")
    port ← require_optional_int raw (str "port")
    path ← require_str raw (str "path")
    query ← require_str raw (str "query")
    value ← require (str "headers") raw
    headers ← parse_headers value
    body ← require_body raw
    new_request u request_id method scheme host port path query headers body

unfoldable pub parse_response : Fields → Result RelayResponse
parse_response raw = do
  check_keys raw response_keys
  request_id ← require_str raw (str "request_id")
  status_code ← require_int raw (str "status_code")
  reason_phrase ← require_optional_str raw (str "reason_phrase")
  value ← require (str "headers") raw
  headers ← parse_headers value
  body ← require_body raw
  new_response request_id status_code reason_phrase headers body

unfoldable pub parse_error : Fields → Result RelayError
parse_error raw = do
  check_keys raw error_keys
  request_id ← require_optional_str raw (str "request_id")
  error_code ← require_str raw (str "error_code")
  message ← require_str raw (str "message")
  retryable ← require_bool raw (str "retryable")
  new_error request_id error_code message retryable

module _ (u : Unicode) where
  -- the three branches on `type_name`, and the raise behind them
  unfoldable pub parse_message : Value → Fields → Result Message
  parse_message type_name raw =
      if equals_text (str "request") type_name
      then as_serialization (do r ← parse_request u raw; ok (request r))
      else if equals_text (str "response") type_name
      then as_serialization (do r ← parse_response raw; ok (response r))
      else if equals_text (str "error") type_name
      then as_serialization (do e ← parse_error raw; ok (error e))
      else err serialization_error

  -- `loads` behind unpackb
  unfoldable pub from_value : Value → Option ℕ → Result Message
  from_value (Value.dict raw) expected = do
    raise_if (not (equals_one (value_or_nil (get (str "version") raw)))) serialization_error
    let type_name = value_or_nil (get (str "type") raw)
    raise_if (is_mismatch expected type_name) serialization_error
    parse_message type_name raw
  from_value _ expected = err serialization_error

  module _ (m : Msgpack) where
    unfoldable pub dumps : Message → Result Bytes
    dumps message = elim (m.packb (Value.dict (to_dict message))) [
      | none ↦ err serialization_error
      | some packed ↦ ok packed
    ]

    unfoldable pub loads : Bytes → Option ℕ → Result Message
    loads bytes expected = elim (m.unpackb bytes) [
      | none ↦ err serialization_error
      | some raw ↦ from_value raw expected
    ]
