-- ===== src/Codec/Strict.antt =====
-- What `loads` accepts, and what it raises.
use relay_x.Prelude.{
  ℕ, ◌≡◌, refl, sym, ap, ◌∙◌, Bool, true, false, Option, some, arith, inl, inr, Bool-cases,
  Option-cases, not, ◌==◌, ==_iff,
}
use mathlib.Core.Path.{subst}
use relay_x.Prelude.Int.{ℤ, pos}
use relay_x.Text.{Text, Bytes, str}
use relay_x.Text.Equality.{text_eq, eq_of_text_eq}
use relay_x.Text.Unicode.{Unicode}
use relay_x.Errors.{
  Exn, Result, ok, err, ◌>>=◌, ◌>>◌, ok-injective, raise_if, guard-eq-ok, guard-eq-err,
  serialization_error, Ensures, Ensures-bind,
}
use relay_x.Models.{
  HeaderList, Message, request, response, error, new_request, new_response, new_error,
  validate_request, validate_response, validate_error,
}
use relay_x.Codec.Data.{Value, Fields, get, equals_text, equals_one}
use relay_x.Codec.{
  Msgpack, from_value, parse_message, parse_request, parse_response, parse_error, check_keys, loads,
  request_keys, response_keys, error_keys, require_str, require_optional_str, require_int,
  require_optional_int, require_bool, require_body, require, parse_headers, message_type,
  message_type_of, type_names, differs, is_mismatch, value_or_nil, as_serialization,
}

-- A message that its constructor made, with the default version and type.
abbrev pub IsSound : Unicode → Message → Type 0
IsSound u (request r) =
    (validate_request u r ≡ ok tt) × (r.version ≡ pos 1) × (r.kind ≡ str "request")
IsSound u (response r) =
    (validate_response r ≡ ok tt) × (r.version ≡ pos 1) × (r.kind ≡ str "response")
IsSound u (error e) = (validate_error e ≡ ok tt) × (e.version ≡ pos 1) × (e.kind ≡ str "error")

new_request-IsSound :
    (u : Unicode) (request_id method scheme host : Text) (port : Option ℤ) (path query : Text)
    (headers : HeaderList) (body : Bytes)
    → Ensures
        (λ r. IsSound u (request r))
        (new_request u request_id method scheme host port path query headers body)
unfolding new_request
new_request-IsSound u request_id method scheme host port path query headers body r h = ground arith

new_response-IsSound :
    (u : Unicode) (request_id : Text) (status : ℤ) (reason : Option Text) (headers : HeaderList)
    (body : Bytes)
    → Ensures (λ r. IsSound u (response r)) (new_response request_id status reason headers body)
unfolding new_response
new_response-IsSound u request_id status reason headers body r h = ground arith

new_error-IsSound :
    (u : Unicode) (request_id : Option Text) (code message : Text) (retryable : Bool)
    → Ensures (λ e. IsSound u (error e)) (new_error request_id code message retryable)
unfolding new_error
new_error-IsSound u request_id code message retryable e h = ground arith

parse_request-IsSound :
    (u : Unicode) (raw : Fields) → Ensures (λ r. IsSound u (request r)) (parse_request u raw)
unfolding parse_request
parse_request-IsSound u raw = Ensures-bind (check_keys raw request_keys) _ λ _.
    Ensures-bind (require_str raw (str "request_id")) _ λ request_id.
      Ensures-bind (require_str raw (str "method")) _ λ method.
        Ensures-bind (require_str raw (str "scheme")) _ λ scheme.
          Ensures-bind (require_str raw (str "host")) _ λ host.
            Ensures-bind (require_optional_int raw (str "port")) _ λ port.
              Ensures-bind (require_str raw (str "path")) _ λ path.
                Ensures-bind (require_str raw (str "query")) _ λ query.
                  Ensures-bind (require (str "headers") raw) _ λ value.
                    Ensures-bind (parse_headers value) _ λ headers.
                      Ensures-bind (require_body raw) _ λ body.
                        new_request-IsSound u request_id method scheme host port path query headers
                          body

parse_response-IsSound :
    (u : Unicode) (raw : Fields) → Ensures (λ r. IsSound u (response r)) (parse_response raw)
unfolding parse_response
parse_response-IsSound u raw = Ensures-bind (check_keys raw response_keys) _ λ _.
    Ensures-bind (require_str raw (str "request_id")) _ λ request_id.
      Ensures-bind (require_int raw (str "status_code")) _ λ status_code.
        Ensures-bind (require_optional_str raw (str "reason_phrase")) _ λ reason_phrase.
          Ensures-bind (require (str "headers") raw) _ λ value.
            Ensures-bind (parse_headers value) _ λ headers.
              Ensures-bind (require_body raw) _
                λ body. new_response-IsSound u request_id status_code reason_phrase headers body

parse_error-IsSound :
    (u : Unicode) (raw : Fields) → Ensures (λ e. IsSound u (error e)) (parse_error raw)
unfolding parse_error
parse_error-IsSound u raw = Ensures-bind (check_keys raw error_keys) _ λ _.
    Ensures-bind (require_optional_str raw (str "request_id")) _ λ request_id.
      Ensures-bind (require_str raw (str "error_code")) _ λ error_code.
        Ensures-bind (require_str raw (str "message")) _ λ message.
          Ensures-bind (require_bool raw (str "retryable")) _
            λ retryable. new_error-IsSound u request_id error_code message retryable

-- The message has the type that `type_name` names.
abbrev HasType : Unicode → Value → Message → Type 0
HasType u type_name (request r) =
    IsSound u (request r) × (equals_text (str "request") type_name ≡ true)
HasType u type_name (response r) =
    IsSound u (response r) × (equals_text (str "response") type_name ≡ true)
HasType u type_name (error e) = IsSound u (error e) × (equals_text (str "error") type_name ≡ true)

wrapped {ℓ} :
    {A : Type ℓ} (P : Message → Type 0) (r : Result A) (c : A → Message)
    → Ensures (λ a. P (c a)) r
    → Ensures P (as_serialization (r >>= λ a. ok (c a)))
wrapped P (ok a) c h message e = subst P (ok-injective e) (h a refl)
wrapped P (err x) c h message e = cc

with_fact {ℓ κ} :
    {A : Type ℓ} {P : A → Type 0} {Q : Type κ} (r : Result A)
    → Q
    → Ensures P r
    → Ensures (λ a. P a × Q) r
with_fact r q h a e = (h a e, q)

parse_message-HasType :
    (u : Unicode) (type_name : Value) (raw : Fields)
    → Ensures (HasType u type_name) (parse_message u type_name raw)
unfolding parse_message
parse_message-HasType u type_name raw = elim (Bool-cases (equals_text (str "request") type_name)) [
  | inl q ↦ rw q (
      wrapped (HasType u type_name) (parse_request u raw) request
        (with_fact _ q (parse_request-IsSound u raw)))
  | inr nq ↦ rw nq (elim (Bool-cases (equals_text (str "response") type_name)) [
    | inl p ↦ rw p (
        wrapped (HasType u type_name) (parse_response raw) response
          (with_fact _ p (parse_response-IsSound u raw)))
    | inr np ↦ rw np (elim (Bool-cases (equals_text (str "error") type_name)) [
      | inl e ↦ rw e (
          wrapped (HasType u type_name) (parse_error raw) error
            (with_fact _ e (parse_error-IsSound u raw)))
      | inr ne ↦ rw ne (λ a h. cc)
    ])
  ])
]

eq_of_equals_text : (t : Text) (v : Value) → equals_text t v ≡ true → v ≡ Value.str t
eq_of_equals_text t (Value.str s) h = ap (λ x. Value.str x) (eq_of_text_eq s t h)
eq_of_equals_text t _ h = cc

kind_agrees :
    (s name : Text) (t n : ℕ)
    → message_type_of name ≡ ok n
    → t ≡ n
    → not (text_eq s name) ≡ false
    → message_type_of s ≡ ok t
kind_agrees s name t n known same h =
    ap message_type_of (eq_of_text_eq s name (ground arith)) ∙ known ∙ ap ok (sym same)

-- The outer type is the one that the inner name stands for.
type_agrees :
    (t : ℕ) (s : Text) → differs (type_names t) (Value.str s) ≡ false → message_type_of s ≡ ok t
unfolding text_eq
type_agrees t s h = elim (Bool-cases (t == 1)) [
  | inl e ↦ kind_agrees s (str "request") t 1 refl ((==_iff t 1).0 e) (ground arith)
  | inr n1 ↦ elim (Bool-cases (t == 2)) [
    | inl e ↦ kind_agrees s (str "response") t 2 refl ((==_iff t 2).0 e) (ground arith)
    | inr n2 ↦ elim (Bool-cases (t == 3)) [
      | inl e ↦ kind_agrees s (str "error") t 3 refl ((==_iff t 3).0 e) (ground arith)
      | inr n3 ↦ cc (n1, n2, n3)
    ]
  ]
]

type_of_kind :
    (u : Unicode) (t : ℕ) (type_name : Value) (message : Message)
    → differs (type_names t) type_name ≡ false
    → HasType u type_name message
    → IsSound u message × (message_type message ≡ ok t)
unfolding message_type
type_of_kind u t type_name (request r) d (sound, e) = (
  sound,
  rw sound.2
      (type_agrees t (str "request") (rw (eq_of_equals_text (str "request") type_name e) at d)),
)
type_of_kind u t type_name (response r) d (sound, e) = (
  sound,
  rw sound.2
      (type_agrees t (str "response") (rw (eq_of_equals_text (str "response") type_name e) at d)),
)
type_of_kind u t type_name (error x) d (sound, e) = (
  sound,
  rw sound.2 (type_agrees t (str "error") (rw (eq_of_equals_text (str "error") type_name e) at d)),
)

from_value-IsSound :
    (u : Unicode) (v : Value) (t : ℕ)
    → Ensures
        (λ message. IsSound u message × (message_type message ≡ ok t))
        (from_value u v (some t))
unfolding from_value
from_value-IsSound u (Value.dict raw) t message h =
    let (x, h1) =
      guard-eq-ok (not (equals_one (value_or_nil (get (str "version") raw)))) serialization_error _
        h in
    let (d, h2) =
      guard-eq-ok (differs (type_names t) (value_or_nil (get (str "type") raw))) serialization_error
        _ h1 in
    type_of_kind u t (value_or_nil (get (str "type") raw)) message d
      (parse_message-HasType u (value_or_nil (get (str "type") raw)) raw message h2)
from_value-IsSound u _ t message h = cc

-- Whatever the bytes, a message that loads accepts for an outer type is one that its constructor
-- validated, has version 1, and is of the type that the outer type stands for.
pub loads-IsSound :
    (u : Unicode) (m : Msgpack) (bytes : Bytes) (t : ℕ) (message : Message)
    → loads u m bytes (some t) ≡ ok message
    → IsSound u message × (message_type message ≡ ok t)
unfolding loads
loads-IsSound u m bytes t message h = elim (Option-cases (m.unpackb bytes)) [
  | inl e ↦ cc e
  | inr (v, e) ↦ from_value-IsSound u v t message (rw (e, loads) at h)
]

parse_message-err :
    (u : Unicode) (type_name : Value) (raw : Fields) (e : Exn)
    → parse_message u type_name raw ≡ err e
    → e ≡ serialization_error
unfolding parse_message
parse_message-err u type_name raw e h = ground arith

from_value-err :
    (u : Unicode) (v : Value) (expected : Option ℕ) (e : Exn)
    → from_value u v expected ≡ err e
    → e ≡ serialization_error
unfolding from_value
from_value-err u (Value.dict raw) expected e h =
    let type_name : Value = value_or_nil (get (str "type") raw) in
    let wrong_version = not (equals_one (value_or_nil (get (str "version") raw))) in
    let k : Result Message =
      raise_if (is_mismatch expected type_name) serialization_error
      >> parse_message u type_name raw in
    elim (guard-eq-err wrong_version serialization_error (λ _. k) h) [
      | inl same ↦ same
      | inr h1 ↦
          elim (guard-eq-err (is_mismatch expected type_name) serialization_error
            (λ _. parse_message u type_name raw) h1) [
              | inl same ↦ same
              | inr h2 ↦ parse_message-err u (value_or_nil (get (str "type") raw)) raw e h2
            ]
    ]
from_value-err u _ expected e h = cc

-- loads raises nothing but a SerializationError, whatever the bytes, whatever msgpack does with
-- them and whichever constructor refuses the fields.
pub loads-raises :
    (u : Unicode) (m : Msgpack) (bytes : Bytes) (expected : Option ℕ) (e : Exn)
    → loads u m bytes expected ≡ err e
    → e ≡ serialization_error
unfolding loads
loads-raises u m bytes expected e h = elim (Option-cases (m.unpackb bytes)) [
  | inl n ↦ cc n
  | inr (v, p) ↦ from_value-err u v expected e (rw (p, loads) at h)
]
