-- ===== src/Server/Relay.antt =====
-- What the handler of POST /relay forwards upstream, and when it touches the replay cache.
use relay_x.Prelude.{
  ℕ, ◌<◌, ◌≢◌, refl, ◌≤◌, ◌≡◌, sym, ◌∙◌, ◌⊎◌, inl, inr, false, Option, some, none, length, leb,
  leb→le, arith, Bool-cases,
}
use relay_x.Text.{Bytes}
use relay_x.Errors.{
  Exn, Result, ok, err, >>=-eq-ok, guard-eq-ok, Result-cases, http_exception, raise_if, ◌>>◌,
}
use relay_x.Text.Equality.{text_eq_refl, eq_of_text_eq}
use relay_x.Text.Split.{split_at}
use relay_x.Constants.{relay_content_type}
use relay_x.Replay.{ReplayCache}
use relay_x.Models.{RelayRequest, Message, request, response, error}
use relay_x.Pipeline.{Libraries, Draw, decode_message}
use relay_x.Server.{
  Outgoing, Upstream, Handled, handle_body, process, encode_reply, ServerSettings, CarrierRequest,
  authenticate, is_wrong_type, accept_body, relay, forwarded_request, read_limited_body,
}
use relay_x.Server.Carrier.{IsAuthorized, authenticate_iff, concat, read_limited_body-eq}

module _ (lib : Libraries) (upstream : Outgoing → Upstream) (settings : ServerSettings)
    (req : CarrierRequest) where
  -- What a carrier request has passed when its body is read.
  pub record IsAccepted (body : Bytes) : Type 0 where
    pub authorized : IsAuthorized req.authorization settings.auth_token
    pub right_type : lib.unicode.lower (split_at b';' req.content_type).0 ≡ relay_content_type
    pub whole : body ≡ concat req.chunks
    pub bounded : length body ≤ settings.limits.max_ciphertext_bytes

  right_type_lem :
      is_wrong_type lib upstream settings req.content_type ≡ false
      → lib.unicode.lower (split_at b';' req.content_type).0 ≡ relay_content_type
  right_type_lem h =
      eq_of_text_eq (lib.unicode.lower (split_at b';' req.content_type).0) relay_content_type
        (ground (arith, h))

  right_type_of :
      lib.unicode.lower (split_at b';' req.content_type).0 ≡ relay_content_type
      → is_wrong_type lib upstream settings req.content_type ≡ false
  right_type_of e = rw (e, text_eq_refl relay_content_type) refl

  body_whole :
      (body : Bytes)
      → read_limited_body req.chunks settings.limits.max_ciphertext_bytes ≡ ok body
      → (body ≡ concat req.chunks) × (length body ≤ settings.limits.max_ciphertext_bytes)
  body_whole body h =
      let e = sym (read_limited_body-eq req.chunks settings.limits.max_ciphertext_bytes) ∙ h in
      elim (Bool-cases (leb (length (concat req.chunks)) settings.limits.max_ciphertext_bytes)) [
        | inl fits ↦ ground (arith, fits, leb→le _ _ fits)
        | inr over ↦ ground (arith, over)
      ]

  IsAccepted-of_ok :
      (body : Bytes) → accept_body lib upstream settings req ≡ ok body → IsAccepted body
  unfolding accept_body
  IsAccepted-of_ok body h =
      let (u, e, h1) = >>=-eq-ok (authenticate req.authorization settings.auth_token) _ h in
      let (t, h2) =
        guard-eq-ok (is_wrong_type lib upstream settings req.content_type) (http_exception 415) _
          h1 in
      let (w, b) = body_whole body h2 in
      record {
        authorized = (authenticate_iff req.authorization settings.auth_token).0 e;
        right_type = right_type_lem t;
        whole = w;
        bounded = b;
      }

  request_of :
      (decoded : Result Message) (r : RelayRequest)
      → forwarded_request lib upstream settings decoded ≡ some r
      → decoded ≡ ok (request r)
  request_of (ok (request q)) r h = ground arith
  request_of (ok (response q)) r h = cc
  request_of (ok (error q)) r h = cc
  request_of (err e) r h = cc

  module _ (cache : Option ReplayCache) (now : ℕ) (draw : Draw) where
    -- The relay forwards a request upstream only if the carrier request was authenticated, had the
    -- relay's content type and a body within the limit, and that body is a packet that decodes to
    -- this very request.
    pub relay-forwards_only :
        (r : RelayRequest)
        → (relay lib upstream settings cache now draw req).forwarded ≡ some r
        → (body : Bytes) × IsAccepted body
          × ((decode_message lib body settings.key cache settings.limits now).0 ≡ ok (request r))
    unfolding relay
    relay-forwards_only r h = elim (Result-cases (accept_body lib upstream settings req)) [
      | inl (body, e) ↦ (body, IsAccepted-of_ok body e, request_of _ r (rw (e, relay) at h))
      | inr (x, e) ↦ let none_forwarded : none ≡ some r = rw (e, relay) at h in cc none_forwarded
    ]

    -- What a refused request leaves.
    abbrev pub refused : Exn → Handled
    refused e = record { result = err e; cache = cache; forwarded = none }

    -- The four ends of a carrier request, each with the condition under which it is the one.
    abbrev pub Handles : Handled → Type 0
    Handles handled =
        ((¬ IsAuthorized req.authorization settings.auth_token)
          × ((e : Exn) × (handled ≡ refused e)))
        ⊎ ((IsAuthorized req.authorization settings.auth_token
              × (lib.unicode.lower (split_at b';' req.content_type).0 ≢ relay_content_type)
              × (handled ≡ refused (http_exception 415)))
            ⊎ ((IsAuthorized req.authorization settings.auth_token
                  × (lib.unicode.lower (split_at b';' req.content_type).0 ≡ relay_content_type)
                  × (settings.limits.max_ciphertext_bytes < length (concat req.chunks))
                  × (handled ≡ refused (http_exception 413)))
                ⊎ (IsAccepted (concat req.chunks)
                    × (handled.cache
                        ≡ (decode_message lib (concat req.chunks) settings.key cache settings.limits
                            now).1)
                    × (handled.result
                        ≡ encode_reply lib upstream settings draw (
                            process lib upstream settings
                              (decode_message lib (concat req.chunks) settings.key cache
                                settings.limits now).0)))))

    sized_body :
        IsAuthorized req.authorization settings.auth_token
        → lib.unicode.lower (split_at b';' req.content_type).0 ≡ relay_content_type
        → Handles (
            handle_body lib upstream settings cache now draw
              (read_limited_body req.chunks settings.limits.max_ciphertext_bytes))
    sized_body a t =
        rw (read_limited_body-eq req.chunks settings.limits.max_ciphertext_bytes)
          (elim (Bool-cases
            (leb (length (concat req.chunks)) settings.limits.max_ciphertext_bytes)) [
              | inl fits ↦ rw fits (
                  inr (
                    inr (
                      inr (
                        record {
                          authorized = a;
                          right_type = t;
                          whole = refl;
                          bounded = leb→le _ _ fits;
                        },
                        refl,
                        refl,
                      ))))
              | inr over ↦ rw over (inr (inr (inl (a, t, ground (arith, over), refl))))
            ])

    typed_body :
        IsAuthorized req.authorization settings.auth_token
        → Handles (
            handle_body lib upstream settings cache now draw (
              raise_if (is_wrong_type lib upstream settings req.content_type) (http_exception 415)
              >> read_limited_body req.chunks settings.limits.max_ciphertext_bytes))
    typed_body a = elim (Bool-cases (is_wrong_type lib upstream settings req.content_type)) [
      | inl wrong ↦ rw wrong (inr (inl (a, λ e. ground (arith, wrong, right_type_of e), refl)))
      | inr right ↦ rw right (sized_body a (right_type_lem right))
    ]

    -- Exactly when the handler of POST /relay refuses a carrier request, and what it leaves:
    -- without the right Authorization header it ends with an exception, with it but another
    -- content type than the relay's with status 415, with both but a body over the limit with
    -- status 413, each time with the replay cache as it was and nothing forwarded; in all other
    -- cases the whole body is decoded, the cache is what the decoding leaves, and the answer is
    -- the encoded reply to what was decoded.
    pub relay-cache : Handles (relay lib upstream settings cache now draw req)
    unfolding relay accept_body
    relay-cache = elim (Result-cases (authenticate req.authorization settings.auth_token)) [
      | inl (x, e) ↦
          rw e (typed_body ((authenticate_iff req.authorization settings.auth_token).0 e))
      | inr (x, e) ↦ rw e (
          inl (
            λ a.
                let passed = (authenticate_iff req.authorization settings.auth_token).1 a in
                cc (e, passed),
            (x, refl),
          ))
    ]
