-- ===== src/Server/Replies.antt =====
-- The replies that the relay makes: for every failure, and for every answer of the upstream.
use relay_x.Prelude.{
  ℕ, ◌+◌, ◌≤◌, ◌≡◌, refl, List, [], ◌∷◌, ◌++◌, Bool, true, false, ltb, leb, length, length-append,
  Option, some, arith, if◌then◌else◌, inl, inr, Bool-cases, append-nil, append_assoc,
}
use relay_x.Prelude.Int.{ℤ, pos}
use relay_x.Text.{Text, Bytes, str}
use relay_x.Text.Equality.{text_eq, one_of}
use relay_x.Text.Unicode.{Unicode}
use relay_x.Errors.{
  Exn, ok, replay_detected, packet_expired, packet_from_future, replay_cache_full,
  request_too_large, response_too_large,
}
use relay_x.Models.{
  HeaderList, RelayRequest, RelayError, Message, RelayResponse, error, error_codes, has_line_break,
  validate_optional_id, validate_request_id, validate_error, new_error,
}
use relay_x.Server.{
  error_from_exception, finish, collect, forward, outgoing, Outgoing, Upstream, Failure, replied,
}
use relay_x.Headers.{filter_forward_headers}
use relay_x.Server.Carrier.{concat}

abbrev pub error_of : Option Text → Text → Text → Bool → RelayError
error_of id code message retryable = record {
  request_id = id;
  error_code = code;
  message = message;
  retryable = retryable;
  version = pos 1;
  kind = str "error";
}

pub new_error-ok :
    (id : Option Text) (code message : Text) (retryable : Bool)
    → validate_optional_id id ≡ ok tt
    → one_of code error_codes ≡ true
    → has_line_break message ≡ false
    → new_error id code message retryable ≡ ok (error_of id code message retryable)
unfolding new_error validate_error text_eq
new_error-ok id code message retryable h c m = rw (h, c, m)

-- The code, the text and the retry flag for an exception.
abbrev pub code_of : Exn → Text × Text × Bool
code_of replay_detected = (str "replay_detected", str "Replay detected", false)
code_of packet_expired = (str "packet_expired", str "Packet expired", false)
code_of packet_from_future =
    (str "packet_from_future", str "Packet timestamp is too far in the future", false)
code_of replay_cache_full = (str "replay_cache_full", str "Replay cache is full", true)
code_of request_too_large = (str "request_too_large", str "Request body is too large", false)
code_of response_too_large = (str "response_too_large", str "Response body is too large", false)
code_of _ = (str "invalid_packet", str "Relay packet could not be processed", false)

-- Every exception becomes an error message that its constructor accepts, with the request's id
-- where that is known and valid; only a full replay cache is said to be retryable.
pub error_from_exception_total :
    (e : Exn) (id : Option Text)
    → validate_optional_id id ≡ ok tt
    → error_from_exception e id ≡ ok (error_of id (code_of e).0 (code_of e).1 (code_of e).2)
unfolding error_from_exception one_of text_eq
error_from_exception_total replay_detected id h = new_error-ok id _ _ _ h refl refl
error_from_exception_total packet_expired id h = new_error-ok id _ _ _ h refl refl
error_from_exception_total packet_from_future id h = new_error-ok id _ _ _ h refl refl
error_from_exception_total replay_cache_full id h = new_error-ok id _ _ _ h refl refl
error_from_exception_total request_too_large id h = new_error-ok id _ _ _ h refl refl
error_from_exception_total response_too_large id h = new_error-ok id _ _ _ h refl refl
error_from_exception_total _ id h = new_error-ok id _ _ _ h refl refl

abbrev pub too_large : RelayRequest → Message
too_large r = error (
    error_of (some r.request_id) (str "response_too_large") (str "Upstream response is too large")
      false)

module _ (u : Unicode) (r : RelayRequest) (max : ℕ) (status : ℤ) (reason : Text)
    (headers : HeaderList) (failure : Option Failure)
    (valid : validate_request_id r.request_id ≡ ok tt) where
  too_large-raised :
      new_error
        (some r.request_id)
        (str "response_too_large")
        (str "Upstream response is too large")
        false
      ≡ ok (
          error_of
            (some r.request_id)
            (str "response_too_large")
            (str "Upstream response is too large")
            false)
  unfolding one_of text_eq
  too_large-raised = new_error-ok (some r.request_id) _ _ false valid refl refl

  collect_lem :
      (body : Bytes) (chunks : List Bytes)
      → length body ≤ max
      → collect u r max status reason headers body chunks failure ≡ (
          if leb (length body + length (concat chunks)) max
          then finish u r status reason headers (body ++ concat chunks) failure
          else ok (too_large r))
  unfolding collect
  collect_lem body [] fits = ground (arith, append-nil body)
  collect_lem body (chunk ∷ chunks) fits = elim (Bool-cases (ltb max (length (body ++ chunk)))) [
    | inl over ↦ ground (
      arith,
      over,
      too_large-raised,
      length-append chunk (concat chunks),
      length-append body chunk,
    )
    | inr within ↦ ground (
      arith,
      within,
      length-append chunk (concat chunks),
      length-append body chunk,
      collect_lem (body ++ chunk) chunks,
      append_assoc body chunk (concat chunks),
    )
  ]

  -- The chunks are collected up to the limit.
  pub forward-eq :
      (upstream : Outgoing → Upstream) (chunks : List Bytes)
      → upstream (outgoing u r) ≡ replied status reason headers chunks failure
      → forward u upstream max r ≡ (
          if leb (length (concat chunks)) max
          then finish u r status reason headers (concat chunks) failure
          else ok (too_large r))
  unfolding forward
  forward-eq upstream chunks h = rw h (ground (arith, collect_lem [] chunks))

-- The response that the server makes of the upstream's.
abbrev pub relayed : Unicode → RelayRequest → ℤ → Text → HeaderList → Bytes → RelayResponse
relayed u r status reason headers body = record {
  request_id = r.request_id;
  status_code = status;
  reason_phrase = some reason;
  headers = filter_forward_headers u headers;
  body = body;
  version = pos 1;
  kind = str "response";
}
