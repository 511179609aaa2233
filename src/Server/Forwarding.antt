-- ===== src/Server/Forwarding.antt =====
-- How the forwarding of a request ends.
use relay_x.Prelude.{
  ℕ, ◌≤◌, ◌<◌, ◌⊎◌, leb→le, none, ◌≡◌, refl, List, true, leb, length, Option, some, arith, inl, inr,
  Bool-cases,
}
use relay_x.Prelude.Int.{ℤ}
use relay_x.Text.{Text, Bytes, str}
use relay_x.Text.Equality.{text_eq, one_of}
use relay_x.Text.Unicode.{Unicode}
use relay_x.Errors.{Exn, Result, err, Result-cases, foreign, ok}
use relay_x.Models.{
  HeaderList, RelayRequest, Message, RelayResponse, response, new_response, validate_response,
  error, validate_request_id,
}
use relay_x.Server.{
  finish, forward, outgoing, Outgoing, Upstream, Failure, timeout, connect_error, http_error, other,
  failure_reply, replied,
}
use relay_x.Server.Carrier.{concat}
use relay_x.Server.Replies.{error_of, new_error-ok, too_large, forward-eq, relayed}

-- What a failure of the upstream becomes: an error message that may be tried again, and for an
-- exception that is none of httpx's, that exception.
abbrev pub failure_result : RelayRequest → Failure → Result Message
failure_result r timeout = ok (
    error (
      error_of (some r.request_id) (str "upstream_timeout") (str "Upstream request timed out")
        true))
failure_result r connect_error = ok (
    error (
      error_of (some r.request_id) (str "upstream_connection_failed")
        (str "Could not connect to upstream") true))
failure_result r http_error = ok (
    error (
      error_of (some r.request_id) (str "upstream_protocol_error") (str "Upstream HTTP error")
        true))
failure_result r other = err foreign

failure_reply-eq :
    (r : RelayRequest) (f : Failure)
    → validate_request_id r.request_id ≡ ok tt
    → failure_reply r f ≡ failure_result r f
unfolding failure_reply one_of text_eq
failure_reply-eq r timeout h = rw (new_error-ok (some r.request_id) _ _ true h refl refl) refl
failure_reply-eq r connect_error h = rw (new_error-ok (some r.request_id) _ _ true h refl refl) refl
failure_reply-eq r http_error h = rw (new_error-ok (some r.request_id) _ _ true h refl refl) refl
failure_reply-eq r other h = refl

-- The four ends of a call upstream that gave a status, headers and chunks, each with the condition
-- under which it is the one.
abbrev pub Forwarded :
    RelayRequest → ℕ → RelayResponse → List Bytes → Option Failure → Result Message → Type 0
Forwarded r max x chunks failure result =
    ((max < length (concat chunks)) × (result ≡ ok (too_large r)))
    ⊎ (((length (concat chunks) ≤ max)
          × (failure ≡ none)
          × (validate_response x ≡ ok tt)
          × (result ≡ ok (response x)))
        ⊎ (((length (concat chunks) ≤ max)
              × (failure ≡ none)
              × ((e : Exn) × (validate_response x ≡ err e) × (result ≡ err e)))
            ⊎ ((length (concat chunks) ≤ max)
                × ((f : Failure) × (failure ≡ some f) × (result ≡ failure_result r f)))))

module _ (u : Unicode) (r : RelayRequest) (max : ℕ) (status : ℤ) (reason : Text)
    (headers : HeaderList) where
  finish-Forwarded :
      (chunks : List Bytes) (failure : Option Failure)
      → validate_request_id r.request_id ≡ ok tt
      → length (concat chunks) ≤ max
      → Forwarded r max
          (relayed u r status reason headers (concat chunks))
          chunks
          failure
          (finish u r status reason headers (concat chunks) failure)
  unfolding finish new_response
  finish-Forwarded chunks (some f) valid small =
      inr (inr (inr (small, (f, refl, failure_reply-eq r f valid))))
  finish-Forwarded chunks none valid small =
      elim (Result-cases (validate_response (relayed u r status reason headers (concat chunks)))) [
        | inl (x, e) ↦ inr (inl (small, refl, e, rw e refl))
        | inr (x, e) ↦ inr (inr (inl (small, refl, (x, e, rw e refl))))
      ]

  -- For a request with a valid id to which the upstream gives a status, headers and a body in
  -- chunks, however it is cut: if the body is over the limit, the reply is the error
  -- response_too_large, also where the upstream fails later; if it is within the limit and the
  -- upstream does not fail, the reply is the response with the status, the reason, the filtered
  -- headers and the whole body, or the exception of RelayResponse's validation if that refuses it;
  -- and if the upstream fails behind a body within the limit, it is the retryable error for a
  -- timeout, a failed connection or another error of HTTP, or the exception itself.
  pub forward_cases :
      (failure : Option Failure) (upstream : Outgoing → Upstream) (chunks : List Bytes)
      → validate_request_id r.request_id ≡ ok tt
      → upstream (outgoing u r) ≡ replied status reason headers chunks failure
      → Forwarded r max
          (relayed u r status reason headers (concat chunks))
          chunks
          failure
          (forward u upstream max r)
  forward_cases failure upstream chunks valid h =
      rw (forward-eq u r max status reason headers failure valid upstream chunks h)
        (elim (Bool-cases (leb (length (concat chunks)) max)) [
          | inl small ↦ rw small (finish-Forwarded chunks failure valid (leb→le _ _ small))
          | inr large ↦ rw large (inl (ground (arith, large), refl))
        ])
