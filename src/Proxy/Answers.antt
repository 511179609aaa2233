-- ===== src/Proxy/Answers.antt =====
-- What the proxy's client gets, whatever happens on the way.
use relay_x.Prelude.{ℕ, ◌≡◌, refl, ◌⊎◌, inl, inr, ◌++◌, Option}
use relay_x.Text.{Text, Bytes, str}
use relay_x.Text.Equality.{text_eq, one_of}
use relay_x.Text.Decimal.{show_int, show_nat, digits}
use relay_x.Errors.{Exn, Result, ok, err, Result-cases}
use relay_x.Replay.{ReplayCache}
use relay_x.Models.{RelayRequest, Message, new_error, validate_error}
use relay_x.Parser.{SplitUrl, crlf}
use relay_x.Writer.{Written, write_response, write_parts, write_headers, encode_below, encode_utf8}
use relay_x.Pipeline.{Libraries, Draw}
use relay_x.Client.{ClientSettings, send}
use relay_x.Client.Replies.{Answers, send-Answers}
use relay_x.Proxy.{Served, relay_request, handle, write_reply, or_bad_request}

-- The response of the proxy to a request that failed.
abbrev pub bad_gateway : Written
bad_gateway = record {
  output =
      str "HTTP/1.1 502 Bad Gateway"
      ++ (crlf
          ++ (str "content-type: text/plain; charset=utf-8"
              ++ (crlf
                  ++ (str "Content-Length: 30"
                      ++ (crlf
                          ++ (str "Connection: close"
                              ++ (crlf ++ (crlf ++ str "Request could not be processed"))))))));
  outcome = ok tt;
}

module _ (lib : Libraries) (urlsplit : Text → Result SplitUrl) (settings : ClientSettings)
    (post : Bytes → Result Bytes) (max_header : ℕ) where
  failed-eq :
      (e : Exn)
      → write_reply lib urlsplit settings post max_header
          (or_bad_request lib urlsplit settings post max_header (err e))
        ≡ bad_gateway
  unfolding new_error validate_error text_eq one_of write_response encode_utf8 write_parts
      encode_below show_int show_nat digits write_headers
  failed-eq e = refl

  -- The three ends of a connection, each with the condition under which it is the one.
  abbrev pub HandleEnds : Text → Option ReplayCache → ℕ → Draw → Bytes → Served → Type 0
  HandleEnds hex cache now draw stream served =
      ((e : Exn) × (relay_request lib urlsplit settings post max_header hex stream ≡ err e)
        × (served.written ≡ bad_gateway)
        × (served.cache ≡ cache))
      ⊎ (((r : RelayRequest) × (e : Exn) × (relay_request lib urlsplit settings post max_header hex
                stream
              ≡ ok r)
            × ((send lib settings post r cache now draw).0 ≡ err e)
            × (served.written ≡ bad_gateway)
            × (served.cache ≡ (send lib settings post r cache now draw).1))
          ⊎ ((r : RelayRequest) × (reply : Message) × (relay_request lib urlsplit settings post
                  max_header hex stream
                ≡ ok r)
              × ((send lib settings post r cache now draw).0 ≡ ok reply)
              × Answers r reply
              × (served.written ≡ write_response lib.unicode reply)
              × (served.cache ≡ (send lib settings post r cache now draw).1)))

  -- The three ends of a connection of the local proxy, by what happens on the way: if the request
  -- cannot be read or made, or if sending it fails, one fixed response of status 502 is written;
  -- if send returns a reply, that reply answers the very request that was parsed, and what
  -- write_response makes of it is written, which may be an exception. The replay cache is as it
  -- was if nothing was sent, and else as send leaves it.
  pub handle-Answers :
      (hex : Text) (cache : Option ReplayCache) (now : ℕ) (draw : Draw) (stream : Bytes)
      → HandleEnds hex cache now draw stream
          (handle lib urlsplit settings post max_header hex cache now draw stream)
  unfolding handle
  handle-Answers hex cache now draw stream =
      elim (Result-cases (relay_request lib urlsplit settings post max_header hex stream)) [
        | inr (e, failed) ↦
            inl (e, failed, rw (failed, handle) (failed-eq e), rw (failed, handle) refl)
        | inl (r, parsed) ↦ elim (Result-cases (send lib settings post r cache now draw).0) [
          | inr (e, failed) ↦ inr (
              inl (
                r,
                e,
                parsed,
                failed,
                rw (parsed, failed, handle) (failed-eq e),
                rw (parsed, handle) refl,
              ))
          | inl (reply, sent) ↦ inr (
              inr (
                r,
                reply,
                parsed,
                sent,
                (send-Answers lib settings post r cache now draw reply sent).0,
                rw (parsed, sent, handle) refl,
                rw (parsed, handle) refl,
              ))
        ]
      ]
