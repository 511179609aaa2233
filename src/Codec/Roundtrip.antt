-- ===== src/Codec/Roundtrip.antt =====
-- Requests and responses survive `dumps` and `loads`.
use relay_x.Prelude.{ℕ, [], ◌∷◌, ◌≡◌, refl, sym, ap, ◌∙◌, Option, some, none, arith}
use mathlib.Core.Path.{subst₂}
use relay_x.Prelude.Int.{ℤ, pos}
use relay_x.Text.{Text, Bytes, str}
use relay_x.Text.Equality.{text_eq}
use relay_x.Text.Unicode.{Unicode}
use relay_x.Errors.{ok, ok-injective}
use relay_x.Models.{
  HeaderList, RelayRequest, RelayResponse, Message, request, response, error, new_request,
  new_response, validate_request, validate_response,
}
use relay_x.Codec.Data.{Value, only_keys, has_keys}
use relay_x.Codec.{
  Msgpack, IsMsgpack, header_tuples, pairs_to_lists, header_pairs, parse_headers, optional_int,
  as_optional_int, optional_str, as_optional_str, to_dict, from_value, parse_message, parse_request,
  parse_response, check_keys, require_str, require_optional_str, require_int, require_optional_int,
  require_body, dumps, loads, message_type,
}

header_pairs-header_tuples :
    (hs : HeaderList) → header_pairs (pairs_to_lists (header_tuples hs)) ≡ ok hs
unfolding header_pairs pairs_to_lists header_tuples
header_pairs-header_tuples [] = refl
header_pairs-header_tuples ((name, value) ∷ rest) = rw (header_pairs-header_tuples rest)

as_optional_int-optional_int : (p : Option ℤ) → as_optional_int (optional_int p) ≡ ok p
as_optional_int-optional_int none = refl
as_optional_int-optional_int (some p) = refl

as_optional_str-optional_str : (p : Option Text) → as_optional_str (optional_str p) ≡ ok p
as_optional_str-optional_str none = refl
as_optional_str-optional_str (some p) = refl

-- A request or a response as its constructor makes it, with the default version and type. (An
-- error message does not survive: Codec/ErrorMessages.)
abbrev pub IsMade : Unicode → Message → Type 0
IsMade u (request r) =
    (validate_request u r ≡ ok tt) × (r.version ≡ pos 1) × (r.kind ≡ str "request")
IsMade u (response r) =
    (validate_response r ≡ ok tt) × (r.version ≡ pos 1) × (r.kind ≡ str "response")
IsMade u (error e) = ⊥

abbrev fresh_request : RelayRequest → RelayRequest
fresh_request r = record r { version = pos 1; kind = str "request" }

abbrev fresh_response : RelayResponse → RelayResponse
fresh_response r = record r { version = pos 1; kind = str "response" }

module _ (u : Unicode) (r : RelayRequest) where
  parse-fresh_request :
      validate_request u (fresh_request r) ≡ ok tt
      → from_value u (Value.dict (to_dict (request (fresh_request r)))) (some 1)
        ≡ ok (request (fresh_request r))
  unfolding from_value to_dict parse_message parse_request check_keys only_keys has_keys require_str
      require_optional_int require_body parse_headers text_eq new_request
  parse-fresh_request h =
      rw (header_pairs-header_tuples r.headers, as_optional_int-optional_int r.port) (rw h)

module _ (r : RelayResponse) where
  parse-fresh_response :
      (u : Unicode)
      → validate_response (fresh_response r) ≡ ok tt
      → from_value u (Value.dict (to_dict (response (fresh_response r)))) (some 2)
        ≡ ok (response (fresh_response r))
  unfolding from_value to_dict parse_message parse_response check_keys only_keys has_keys
      require_str require_int require_optional_str require_body parse_headers text_eq new_response
  parse-fresh_response u h =
      rw (header_pairs-header_tuples r.headers, as_optional_str-optional_str r.reason_phrase) (rw h)

type_of_request : (r : RelayRequest) → r.kind ≡ str "request" → message_type (request r) ≡ ok 1
unfolding message_type text_eq
type_of_request r k = rw k

type_of_response : (r : RelayResponse) → r.kind ≡ str "response" → message_type (response r) ≡ ok 2
unfolding message_type text_eq
type_of_response r k = rw k

from_value-to_dict :
    (u : Unicode) (message : Message) (t : ℕ)
    → IsMade u message
    → message_type message ≡ ok t
    → from_value u (Value.dict (to_dict message)) (some t) ≡ ok message
from_value-to_dict u (request r) t (valid, v, k) type =
    let same : fresh_request r ≡ r = λ i. record r { version = sym v i; kind = sym k i } in
    let one : 1 ≡ t = ok-injective (sym (type_of_request r k) ∙ type) in
    let done : from_value u (Value.dict (to_dict (request (fresh_request r)))) (some 1)
        ≡ ok (request (fresh_request r)) =
      parse-fresh_request u r (ap (validate_request u) same ∙ valid) in
    subst₂
      (λ (x : ℕ) (q : RelayRequest).
        from_value u (Value.dict (to_dict (request q))) (some x) ≡ ok (request q))
      one same done
from_value-to_dict u (response r) t (valid, v, k) type =
    let same : fresh_response r ≡ r = λ i. record r { version = sym v i; kind = sym k i } in
    let two : 2 ≡ t = ok-injective (sym (type_of_response r k) ∙ type) in
    let done : from_value u (Value.dict (to_dict (response (fresh_response r)))) (some 2)
        ≡ ok (response (fresh_response r)) =
      parse-fresh_response r u (ap validate_response same ∙ valid) in
    subst₂
      (λ (x : ℕ) (q : RelayResponse).
        from_value u (Value.dict (to_dict (response q))) (some x) ≡ ok (response q))
      two same done
from_value-to_dict u (error e) t made type = absurd made

-- What dumps writes of a request or a response, as its constructor made it, loads reads back as
-- the same message, when the outer type is the message's own.
pub loads-dumps :
    (u : Unicode) (m : Msgpack) (message : Message) (t : ℕ) (bytes : Bytes)
    → IsMsgpack m
    → IsMade u message
    → message_type message ≡ ok t
    → dumps u m message ≡ ok bytes
    → loads u m bytes (some t) ≡ ok message
unfolding dumps loads
loads-dumps u m message t bytes laws made type h =
    let packed : m.packb (Value.dict (to_dict message)) ≡ some bytes = ground arith in
    let read = laws.unpackb-packb (Value.dict (to_dict message)) bytes packed in
    rw (read, loads) (from_value-to_dict u message t made type)
