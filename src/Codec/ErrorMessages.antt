-- ===== src/Codec/ErrorMessages.antt =====
-- `dumps` adds the key "headers" to every message; an error message has no such field, and `loads`
-- refuses unknown keys.
use relay_x.Prelude.{ℕ, ◌≡◌, refl, Bool, true, false, Option, some, arith}
use relay_x.Text.{Bytes, str}
use relay_x.Text.Equality.{text_eq}
use relay_x.Text.Unicode.{Unicode}
use relay_x.Errors.{Result, ok, err, ◌>>=◌, raise_if, serialization_error}
use relay_x.Models.{RelayError, Message, error}
use relay_x.Codec.Data.{Value, get, only_keys, has_keys}
use relay_x.Codec.{
  Msgpack, IsMsgpack, to_dict, from_value, parse_message, parse_request, parse_response,
  parse_error, check_keys, dumps, loads, error_keys, value_or_nil, request_keys, response_keys,
}

error_dict_refused :
    (e : RelayError) → check_keys (to_dict (error e)) error_keys ≡ err serialization_error
unfolding to_dict check_keys only_keys has_keys text_eq
error_dict_refused e = refl

not_request :
    (e : RelayError) → check_keys (to_dict (error e)) request_keys ≡ err serialization_error
unfolding to_dict check_keys only_keys has_keys text_eq
not_request e = refl

not_response :
    (e : RelayError) → check_keys (to_dict (error e)) response_keys ≡ err serialization_error
unfolding to_dict check_keys only_keys has_keys text_eq
not_response e = refl

parse-error_dict :
    (u : Unicode) (e : RelayError) (type_name : Value)
    → parse_message u type_name (to_dict (error e)) ≡ err serialization_error
unfolding parse_message parse_request parse_response parse_error
parse-error_dict u e type_name =
    rw (error_dict_refused e, not_request e, not_response e) (ground arith)

guard_then_err :
    (b : Bool) (k : Result Message)
    → k ≡ err serialization_error
    → (raise_if b serialization_error >>= λ _. k) ≡ err serialization_error
guard_then_err true k h = refl
guard_then_err false k h = h

from_value-error_dict :
    (u : Unicode) (e : RelayError) (expected : Option ℕ)
    → from_value u (Value.dict (to_dict (error e))) expected ≡ err serialization_error
unfolding from_value
from_value-error_dict u e expected = guard_then_err _ _ (
    guard_then_err _ _ (parse-error_dict u e (value_or_nil (get (str "type") (to_dict (error e))))))

-- No error message can be read back: whatever its fields, and whichever type is expected, loads
-- refuses what dumps wrote, with a SerializationError.
pub loads-dumps_error :
    (u : Unicode) (m : Msgpack) (e : RelayError) (bytes : Bytes) (expected : Option ℕ)
    → IsMsgpack m
    → dumps u m (error e) ≡ ok bytes
    → loads u m bytes expected ≡ err serialization_error
unfolding dumps loads
loads-dumps_error u m e bytes expected laws h =
    let packed : m.packb (Value.dict (to_dict (error e))) ≡ some bytes = ground arith in
    let read = laws.unpackb-packb (Value.dict (to_dict (error e))) bytes packed in
    rw (read, loads) (from_value-error_dict u e expected)
