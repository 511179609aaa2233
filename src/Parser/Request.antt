-- ===== src/Parser/Request.antt =====
-- What a parsed request satisfies.
use relay_x.Parser.Framing.{
  Announces, HasOneHost, content_length-Announces, single_host_header-HasOneHost, no_chunked,
}
use relay_x.Prelude.{
  ℕ, ◌≢◌, All, ◌-◌, ◌≤◌, ◌≡◌, sym, ap, ◌∙◌, List, [], ◌++◌, false, not, ◌||◌, ltb, length, any,
  take, drop, arith, inl, inr, Bool-cases, take-append-drop, length-take,
}
use relay_x.Prelude.Int.{ℤ, pos, negsuc, pos_part, ltb_ℤ}
use mathlib.Core.Path.{subst}
use relay_x.Text.{Text, Bytes, str}
use relay_x.Text.Equality.{text_eq}
use relay_x.Text.Unicode.{Unicode}
use relay_x.Text.Split.{starts_with}
use relay_x.Errors.{
  Result, ok, err, >>=-eq-ok, guard-eq-ok, ok-injective, incomplete_read, protocol_error,
  request_too_large,
}
use relay_x.Models.{HeaderList, validate_http_token, validate_header_list}
use relay_x.Models.Headers.{IsToken, IsHeader, validate_http_token_iff, validate_header_list_iff}
use relay_x.Parser.{
  HttpRequestMessage, SplitUrl, ParsedHead, parse_head, is_named, read_request, read_headers,
  read_exactly, request_line, header_lines, split_lines, content_length, target_of, absolute_target,
  origin_target, single_host_header, host_port, as_protocol_error, partition, after_last,
}
use relay_x.Parser.Reading.{read_headers-exact}

read_exactly-eq-ok :
    (n : ℕ) (stream body left : Bytes)
    → read_exactly n stream ≡ ok (body, left)
    → (stream ≡ body ++ left) × (length body ≡ n)
read_exactly-eq-ok n stream body left h = elim (Bool-cases (ltb (length stream) n)) [
  | inl short ↦ let bad : err incomplete_read ≡ ok (body, left) = rw short at h in cc bad
  | inr enough ↦
      let same : (take n stream, drop n stream) ≡ (body, left) = ok-injective (rw enough at h) in
      (
        sym (take-append-drop n stream) ∙ ap (λ p. p.0 ++ p.1) same,
        ap (λ p. length p.0) (sym same) ∙ ground (arith, length-take n stream, enough),
      )
]

module _ (u : Unicode) (urlsplit : Text → Result SplitUrl) where
  -- What the target decides nothing of.
  Keeps : Text → HeaderList → Bytes → HttpRequestMessage → Type 0
  Keeps method headers body m = (m.method ≡ method) × (m.headers ≡ headers) × (m.body ≡ body)

  absolute_target-Keeps :
      (method target : Text) (headers : HeaderList) (body : Bytes) (host : Text)
      (m : HttpRequestMessage)
      → absolute_target u urlsplit method target headers body host ≡ ok m
      → Keeps method headers body m
  unfolding absolute_target Keeps
  absolute_target-Keeps method target headers body host m h =
      let (parsed, e1, h1) = >>=-eq-ok (urlsplit target) _ h in
      let (port, e2, h2) = >>=-eq-ok (as_protocol_error parsed.port) _ h1 in
      let (g, h3) =
        guard-eq-ok (not (text_eq (u.lower (after_last b'@' parsed.netloc)) (u.lower host)))
          protocol_error _ h2 in
      ground (arith, h3)

  origin_target-Keeps :
      (method target : Text) (headers : HeaderList) (body : Bytes) (host : Text)
      (m : HttpRequestMessage)
      → origin_target u urlsplit method target headers body host ≡ ok m
      → Keeps method headers body m
  unfolding origin_target Keeps
  origin_target-Keeps method target headers body host m h =
      let (port, e1, h1) = >>=-eq-ok (host_port u (partition b':' host).1) _ h in
      let (parsed, e2, h2) = >>=-eq-ok (urlsplit target) _ h1 in ground (arith, h2)

  target_of-Keeps :
      (method target : Text) (headers : HeaderList) (body : Bytes) (m : HttpRequestMessage)
      → target_of u urlsplit method target headers body ≡ ok m
      → Keeps method headers body m × ((host : Text) × (single_host_header u headers ≡ ok host))
  unfolding target_of
  target_of-Keeps method target headers body m h =
      let (host, e1, h1) = >>=-eq-ok (single_host_header u headers) _ h in
      elim (Bool-cases
        (starts_with (str "http://") target || starts_with (str "https://") target)) [
          | inl absolute ↦ (
            absolute_target-Keeps method target headers body host m (rw absolute at h1),
            (host, e1),
          )
          | inr other ↦
              (origin_target-Keeps method target headers body host m (rw other at h1), (host, e1))
        ]

  -- A request that was read, and what it says of the connection's bytes.
  pub record IsReadRequest (stream : Bytes) (max_header max_body : ℕ) (m : HttpRequestMessage)
      (left : Bytes) : Type 0 where
    pub head : Bytes
    pub consumed : stream ≡ head ++ (m.body ++ left)
    pub head_bounded : length head ≤ max_header
    pub method_ok : IsToken m.method
    pub headers_ok : All IsHeader m.headers
    pub not_chunked : All (λ (h : Text × Text). u.lower h.0 ≢ str "transfer-encoding") m.headers
    pub announced : Announces u m.headers (length m.body)
    pub body_bounded : length m.body ≤ max_body
    pub one_host : HasOneHost u m.headers

  bounded_lem : (max : ℕ) (size : ℤ) → ltb_ℤ (pos max) size ≡ false → pos_part size ≤ max
  bounded_lem max (pos n) h = ground (arith, h)
  bounded_lem max (negsuc n) h = omega arith

  record IsParsed (max_body : ℕ) (p : ParsedHead) : Type 0 where
    method_ok : validate_http_token p.method ≡ ok tt
    headers_ok : validate_header_list p.headers ≡ ok tt
    not_chunked : any (is_named u (str "transfer-encoding")) p.headers ≡ false
    announced : content_length u p.headers ≡ ok p.body_len
    bounded : pos_part p.body_len ≤ max_body

  parse_head-IsParsed :
      (max_body : ℕ) (text : Text) (parsed : ParsedHead)
      → parse_head u max_body text ≡ ok parsed
      → IsParsed max_body parsed
  unfolding parse_head
  parse_head-IsParsed max_body text parsed h =
      let lines : Text × List Text = split_lines text in
      let (l, e2, h2) = >>=-eq-ok (request_line lines.0) _ h in
      let (_, e3, h3) = >>=-eq-ok (validate_http_token l.0) _ h2 in
      let (_, h4) =
        guard-eq-ok (not (text_eq l.2 (str "HTTP/1.1")) || text_eq (u.upper l.0) (str "CONNECT"))
          protocol_error _ h3 in
      let (headers, e5, h5) = >>=-eq-ok (header_lines lines.1) _ h4 in
      let (_, e6, h6) = >>=-eq-ok (validate_header_list headers) _ h5 in
      let (chunked, h7) =
        guard-eq-ok (any (is_named u (str "transfer-encoding")) headers) protocol_error _ h6 in
      let (size, e8, h8) = >>=-eq-ok (content_length u headers) _ h7 in
      let (bounded, h9) = guard-eq-ok (ltb_ℤ (pos max_body) size) request_too_large _ h8 in
      subst (IsParsed max_body) (ok-injective h9) (record {
        method_ok = e3;
        headers_ok = e6;
        not_chunked = chunked;
        announced = e8;
        bounded = bounded_lem max_body size bounded;
      })

  assembled :
      (stream head rest body left : Bytes) (max_header max_body : ℕ) (p : ParsedHead)
      (m : HttpRequestMessage)
      → stream ≡ head ++ rest
      → length head ≤ max_header
      → IsParsed max_body p
      → read_exactly (pos_part p.body_len) rest ≡ ok (body, left)
      → target_of u urlsplit p.method p.target p.headers body ≡ ok m
      → IsReadRequest stream max_header max_body m left
  unfolding Keeps
  assembled stream head rest body left max_header max_body p m stream_eq head_bounded q e10 e11 =
      let (kept, one) = target_of-Keeps p.method p.target p.headers body m e11 in
      let (rest_eq, sized) = read_exactly-eq-ok (pos_part p.body_len) rest body left e10 in
      record {
        head = head;
        consumed = stream_eq ∙ ap (λ x. head ++ x) (rest_eq ∙ ap (λ x. x ++ left) (sym kept.2));
        head_bounded = head_bounded;
        method_ok =
            (validate_http_token_iff m.method).0 (ap validate_http_token kept.0 ∙ q.method_ok);
        headers_ok =
            (validate_header_list_iff m.headers).0 (ap validate_header_list kept.1 ∙ q.headers_ok);
        not_chunked =
            no_chunked u m.headers
              (ap (any (is_named u (str "transfer-encoding"))) kept.1 ∙ q.not_chunked);
        announced = subst (Announces u m.headers) (sym (ap length kept.2 ∙ sized)) (
            content_length-Announces u m.headers p.body_len
              (ap (content_length u) kept.1 ∙ q.announced));
        body_bounded = rw (kept.2, sized) q.bounded;
        one_host =
            single_host_header-HasOneHost u m.headers one.0
              (ap (single_host_header u) kept.1 ∙ one.1);
      }

  -- A request that read_request returns has a token for its method, valid headers, no header named
  -- transfer-encoding and exactly one named host, in any case; it has at most one header named
  -- content-length, and its body is empty if there is none and has the decimal number of bytes
  -- that it writes if there is one, within the limit; and the connection's bytes are its head, its
  -- body and what is left.
  pub read_request-IsReadRequest :
      (stream : Bytes) (max_header max_body : ℕ) (m : HttpRequestMessage) (left : Bytes)
      → read_request u urlsplit stream max_header max_body ≡ ok (m, left)
      → IsReadRequest stream max_header max_body m left
  unfolding read_request
  read_request-IsReadRequest stream max_header max_body m left h =
      let (p, e1, h1) = >>=-eq-ok (read_headers max_header [] stream) _ h in
      let (stream_eq, _, head_bounded, _) = read_headers-exact max_header stream p.0 p.1 e1 in
      let (parsed, e2, h2) = >>=-eq-ok (parse_head u max_body (take (length p.0 - 4) p.0)) _ h1 in
      let (b, e3, h3) = >>=-eq-ok (read_exactly (pos_part parsed.body_len) p.1) _ h2 in
      let (message, e4, h4) =
        >>=-eq-ok (target_of u urlsplit parsed.method parsed.target parsed.headers b.0) _ h3 in
      let same : (message, b.1) ≡ (m, left) = ok-injective h4 in
      subst (λ (q : HttpRequestMessage × Bytes). IsReadRequest stream max_header max_body q.0 q.1)
        same
        (assembled stream p.0 p.1 b.0 b.1 max_header max_body parsed message stream_eq head_bounded
          (parse_head-IsParsed max_body (take (length p.0 - 4) p.0) parsed e2) e3 e4)
