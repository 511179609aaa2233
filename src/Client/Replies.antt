-- ===== src/Client/Replies.antt =====
-- What `send` gives to the proxy.
use relay_x.Prelude.{
  ℕ, ◌≡◌, refl, ap, ◌∙◌, ◌⊎◌, inl, inr, false, Option, some, none, arith, Option-cases,
}
use relay_x.Text.{Text, Bytes}
use relay_x.Text.Equality.{eq_of_text_eq}
use relay_x.Errors.{
  Result, ok, err, >>=-eq-ok, guard-eq-ok, Result-cases, ok-injective, value_error,
}
use relay_x.Replay.{ReplayCache}
use relay_x.Models.{RelayRequest, Message, request, response, error}
use relay_x.Pipeline.{Libraries, Draw, decode_message}
use relay_x.Client.{ClientSettings, check_reply, exchange, send, is_other_id}

-- A reply to the request: a response with its id, or an error with its id or none.
abbrev pub Answers : RelayRequest → Message → Type 0
Answers message (request r) = ⊥
Answers message (response r) = r.request_id ≡ message.request_id
Answers message (error e) = (e.request_id ≡ none) ⊎ (e.request_id ≡ some message.request_id)

same_id : (a b : Text) → is_other_id (some a) b ≡ false → a ≡ b
same_id a b h = eq_of_text_eq a b (ground arith)

check_reply-eq-ok :
    (message : RelayRequest) (reply answer : Message)
    → check_reply message reply ≡ ok answer
    → Answers message answer × (reply ≡ answer)
unfolding check_reply
check_reply-eq-ok message (request r) answer h = cc
check_reply-eq-ok message (response r) answer h =
    let (g, k) =
      guard-eq-ok (is_other_id (some r.request_id) message.request_id) value_error
        (λ _. ok (response r)) h in
    rw (← ok-injective k) (same_id r.request_id message.request_id g, refl)
check_reply-eq-ok message (error e) answer h =
    let (g, k) =
      guard-eq-ok (is_other_id e.request_id message.request_id) value_error (λ _. ok (error e)) h in
    rw (← ok-injective k) (
      elim (Option-cases e.request_id) [
        | inl n ↦ inl n
        | inr (id, s) ↦ inr (s ∙ ap some (same_id id message.request_id (rw s at g)))
      ],
      refl,
    )

module _ (lib : Libraries) (settings : ClientSettings) (post : Bytes → Result Bytes)
    (message : RelayRequest) (cache : Option ReplayCache) (now : ℕ) (draw : Draw) where
  -- What send returns is the decoded content of the relay's answer to the packet that was posted,
  -- and it answers this request: it is never a request, a response has the request's id, and an
  -- error has the request's id or none.
  pub send-Answers :
      (reply : Message)
      → (send lib settings post message cache now draw).0 ≡ ok reply
      → Answers message reply
        × ((content : Bytes) × (exchange lib settings post message draw ≡ ok content)
            × ((decode_message lib content settings.key cache settings.limits now).0 ≡ ok reply))
  unfolding send
  send-Answers reply h = elim (Result-cases (exchange lib settings post message draw)) [
    | inl (content, e) ↦
        let h1 = rw (e, send) at h in
        let (decoded, e2, h2) =
          >>=-eq-ok (decode_message lib content settings.key cache settings.limits now).0
            (check_reply message) h1 in
        let (answers, same) = check_reply-eq-ok message decoded reply h2 in
        (answers, (content, e, e2 ∙ ap ok same))
    | inr (x, e) ↦ let failed : err x ≡ ok reply = rw (e, send) at h in cc failed
  ]
