-- ===== src/Parser/Reading.antt =====
-- How far the parser reads the head of a request.
use relay_x.Prelude.{
  ℕ, ◌≤◌, ◌≡◌, ◌≢◌, sym, ap, ◌∙◌, [], ◌∷◌, ◌++◌, true, false, ltb, leb, length, arith, inl, inr,
  Bool-cases, append-nil, append_assoc, ltb-eq-false_iff,
}
use relay_x.Text.{Bytes}
use relay_x.Text.Split.{has_text}
use relay_x.Errors.{ok, err, ok-injective, request_too_large}
use relay_x.Parser.{read_headers, headers_read, head_end}

-- From `read` on, the parser took `extra`: the stream's next bytes, up to the first end of the head,
-- and no more of it than the limit admits.
pub record IsRead (max : ℕ) (read stream head rest : Bytes) : Type 0 where
  pub extra : Bytes
  pub head_eq : head ≡ read ++ extra
  pub stream_eq : stream ≡ extra ++ rest
  pub ended : has_text head_end head ≡ true
  pub bounded : length head ≤ max
  pub earliest : (a b : Bytes) → extra ≡ a ++ b → b ≢ [] → has_text head_end (read ++ a) ≡ false

nil-append : (a b : Bytes) → [] ≡ a ++ b → b ≡ []
nil-append [] b h = sym h
nil-append (x ∷ a) b h = cc

IsRead-done :
    (max : ℕ) (read stream head rest : Bytes)
    → has_text head_end read ≡ true
    → headers_read max read stream ≡ ok (head, rest)
    → IsRead max read stream head rest
IsRead-done max read stream head rest e h = elim (Bool-cases (ltb max (length read))) [
  | inl over ↦ let bad : err request_too_large ≡ ok (head, rest) = rw over at h in cc bad
  | inr fits ↦
      let same : (read, stream) ≡ (head, rest) = ok-injective (rw fits at h) in
      let hd : read ≡ head = ap (λ p. p.0) same in
      record {
        extra = [];
        head_eq = sym hd ∙ sym (append-nil read);
        stream_eq = ap (λ p. p.1) same;
        ended = rw (← hd) e;
        bounded = rw (← hd) ((ltb-eq-false_iff max (length read)).0 fits);
        earliest = λ a b s n. absurd (n (nil-append a b s));
      }
]

earliest_cons :
    (read extra : Bytes) (x : ℕ)
    → has_text head_end read ≡ false
    → ((a b : Bytes) → extra ≡ a ++ b → b ≢ [] → has_text head_end ((read ++ x ∷ []) ++ a) ≡ false)
    → (a b : Bytes) → x ∷ extra ≡ a ++ b
    → b ≢ []
    → has_text head_end (read ++ a) ≡ false
earliest_cons read extra x e ih [] b s n = rw (append-nil read) e
earliest_cons read extra x e ih (y ∷ a) b s n =
    let same : x ≡ y = cc s in
    let tail : extra ≡ a ++ b = cc s in rw (← same, ← append_assoc read (x ∷ []) a) (ih a b tail n)

IsRead-step :
    (max x : ℕ) (read stream head rest : Bytes)
    → has_text head_end read ≡ false
    → IsRead max (read ++ x ∷ []) stream head rest
    → IsRead max read (x ∷ stream) head rest
IsRead-step max x read stream head rest e r = record {
  extra = x ∷ r.extra;
  head_eq = r.head_eq ∙ append_assoc read (x ∷ []) r.extra;
  stream_eq = ap (λ s. x ∷ s) r.stream_eq;
  ended = r.ended;
  bounded = r.bounded;
  earliest = earliest_cons read r.extra x e r.earliest;
}

read_headers-IsRead :
    (max : ℕ) (read stream head rest : Bytes)
    → read_headers max read stream ≡ ok (head, rest)
    → IsRead max read stream head rest
unfolding read_headers
read_headers-IsRead max read [] head rest h = elim (Bool-cases (has_text head_end read)) [
  | inl e ↦ IsRead-done max read [] head rest e (rw (e, read_headers) at h)
  | inr e ↦ ground (arith, e)
]
read_headers-IsRead max read (b ∷ stream) head rest h = elim (Bool-cases (has_text head_end read)) [
  | inl e ↦ IsRead-done max read (b ∷ stream) head rest e (rw (e, read_headers) at h)
  | inr e ↦ elim (Bool-cases (leb max (length read))) [
    | inl full ↦ ground (arith, e, full)
    | inr room ↦ IsRead-step max b read stream head rest e (
        read_headers-IsRead max (read ++ b ∷ []) stream head rest (rw (e, room, read_headers) at h))
  ]
]

-- The head that _read_headers reads is the connection's bytes up to the first blank line, no byte
-- further, and within the limit; what follows is left for the body.
pub read_headers-exact :
    (max : ℕ) (stream head rest : Bytes)
    → read_headers max [] stream ≡ ok (head, rest)
    → (stream ≡ head ++ rest)
      × (has_text head_end head ≡ true)
      × (length head ≤ max)
      × ((a b : Bytes) → head ≡ a ++ b → b ≢ [] → has_text head_end a ≡ false)
read_headers-exact max stream head rest h =
    let r = read_headers-IsRead max [] stream head rest h in
    (
      r.stream_eq ∙ ap (λ x. x ++ rest) (sym r.head_eq),
      r.ended,
      r.bounded,
      λ a b s n. r.earliest a b (sym r.head_eq ∙ s) n,
    )
