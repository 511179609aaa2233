-- ===== src/Server/Carrier.antt =====
-- Who may use the relay, and how much a request may carry.
use relay_x.Prelude.{
  ℕ, ◌+◌, ◌≤◌, ◌≡◌, ◌≢◌, sym, ap, ap₂, ◌↔◌, List, [], ◌∷◌, ◌++◌, Bool, true, false, not, ◌||◌, ltb,
  leb, ◌==◌, ==_iff, length, length-append, Option, some, none, arith, if◌then◌else◌, inl, inr,
  Bool-cases, Option-cases, ||-eq-false, append-nil, append_assoc,
}
use mathlib.Core.Path.{subst}
use relay_x.Text.{Text, Bytes, str}
use relay_x.Text.Equality.{text_eq, text_eq_refl, eq_of_text_eq}
use relay_x.Text.Split.{cut}
use relay_x.Errors.{ok, err, >>=-eq-ok, raise_if-ok, guard-eq-ok, http_exception}
use relay_x.Models.{is_empty}
use relay_x.Models.Headers.{is_empty-false, ne-nil_of_nonempty}
use relay_x.Server.{
  is_ascii_text, compare_digest, check_credentials, authenticate, read_chunks, read_limited_body,
}

-- The text before and behind a cut.
cut_lem : (c : ℕ) (s a b : Text) → cut c s ≡ some (a, b) → s ≡ a ++ (c ∷ b)
unfolding cut
cut_lem c [] a b h = cc
cut_lem c (d ∷ s) a b h = elim (Bool-cases (d == c)) [
  | inl e ↦ ground (arith, e, (==_iff d c).0 e)
  | inr n ↦ elim (Option-cases (cut c s)) [
    | inl no_cut ↦ ground (arith, n, no_cut)
    | inr (p, found) ↦ ground (arith, n, found, cut_lem c s p.0 p.1 found)
  ]
]

credentials_ok :
    (p : Option (Text × Text)) (token : Text)
    → check_credentials p token ≡ ok tt
    → (p ≡ some (str "Bearer", token)) × (token ≢ []) × (is_ascii_text token ≡ true)
unfolding check_credentials compare_digest
credentials_ok none token h = cc
credentials_ok (some (scheme, given)) token h =
    let (g, h1) =
      guard-eq-ok (not (text_eq scheme (str "Bearer")) || is_empty given) (http_exception 401) _
        h in
    let (a, b) = ||-eq-false (not (text_eq scheme (str "Bearer"))) (is_empty given) g in
    let (same, e, h2) = >>=-eq-ok (compare_digest given token) _ h1 in
    let equal = raise_if-ok (not same) (http_exception 401) h2 in
    let t = eq_of_text_eq given token (digest_true given token same e (not_false equal)) in
    (
      ap₂ (λ (x y : Text). some (x, y)) (eq_of_text_eq scheme (str "Bearer") (not_false a)) t,
      is_empty-false token (subst (λ x. is_empty x ≡ false) t b),
      digest_ascii given token same e,
    )
  where
    not_false : {x : Bool} → not x ≡ false → x ≡ true
    not_false {x} e = ground arith

    digest_true :
        (a b : Text) (same : Bool) → compare_digest a b ≡ ok same → same ≡ true → text_eq a b ≡ true
    digest_true a b same e s = ground arith

    digest_ascii :
        (a b : Text) (same : Bool) → compare_digest a b ≡ ok same → is_ascii_text b ≡ true
    digest_ascii a b same e = ground arith

-- What the Authorization header must be.
pub record IsAuthorized (header : Option Text) (token : Text) : Type 0 where
  pub header_eq : header ≡ some (str "Bearer " ++ token)
  pub nonempty : token ≢ []
  pub ascii : is_ascii_text token ≡ true

IsAuthorized-of_ok :
    (header : Option Text) (token : Text)
    → authenticate header token ≡ ok tt
    → IsAuthorized header token
unfolding authenticate
IsAuthorized-of_ok none token h = cc
IsAuthorized-of_ok (some header) token h =
    let (g, h1) =
      guard-eq-ok (is_empty header) (http_exception 401)
        (λ _. check_credentials (cut 32 header) token) h in
    let (e, n, a) = credentials_ok (cut 32 header) token h1 in
    record {
      header_eq = ap some (cut_lem 32 header (str "Bearer") token e);
      nonempty = n;
      ascii = a;
    }

ok_of_authorized :
    (token : Text)
    → token ≢ []
    → is_ascii_text token ≡ true
    → authenticate (some (str "Bearer " ++ token)) token ≡ ok tt
unfolding authenticate check_credentials compare_digest cut text_eq
ok_of_authorized token n a = rw (ne-nil_of_nonempty token n, a, text_eq_refl token)

-- A carrier request is authenticated exactly when its Authorization header is "Bearer ", one space
-- included, followed by the server's token, and the token is ASCII text that is not empty.
pub authenticate_iff :
    (header : Option Text) (token : Text)
    → (authenticate header token ≡ ok tt) ↔ IsAuthorized header token
authenticate_iff header token = (
  IsAuthorized-of_ok header token,
  λ a.
      subst (λ h. authenticate h token ≡ ok tt) (sym a.header_eq)
        (ok_of_authorized token a.nonempty a.ascii),
)

-- The bytes of all chunks.
abbrev pub concat : List Bytes → Bytes
concat [] = []
concat (chunk ∷ chunks) = chunk ++ concat chunks

read_chunks_lem :
    (max : ℕ) (body : Bytes) (chunks : List Bytes)
    → length body ≤ max
    → read_chunks max body chunks ≡ (
        if leb (length body + length (concat chunks)) max
        then ok (body ++ concat chunks)
        else err (http_exception 413))
unfolding read_chunks
read_chunks_lem max body [] fits = ground (arith, append-nil body)
read_chunks_lem max body (chunk ∷ chunks) fits =
    elim (Bool-cases (ltb max (length body + length chunk))) [
      | inl over ↦ ground (arith, over, length-append chunk (concat chunks))
      | inr within ↦ ground (
        arith,
        within,
        length-append chunk (concat chunks),
        length-append body chunk,
        read_chunks_lem max (body ++ chunk) chunks,
        append_assoc body chunk (concat chunks),
      )
    ]

-- The body of the carrier request is read whole if all its chunks together are within the limit,
-- whatever their sizes; else the request ends with the status 413.
pub read_limited_body-eq :
    (chunks : List Bytes) (max : ℕ)
    → read_limited_body chunks max
      ≡ (if leb (length (concat chunks)) max then ok (concat chunks) else err (http_exception 413))
unfolding read_limited_body
read_limited_body-eq chunks max = ground (arith, read_chunks_lem max [] chunks)
