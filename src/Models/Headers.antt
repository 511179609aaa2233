-- ===== src/Models/Headers.antt =====
-- What a validated token and a validated header list hold.
use relay_x.Prelude.{
  ℕ, List, [], ◌∷◌, ◌≡◌, ◌≢◌, refl, ◌↔◌, Bool, false, ◌||◌, ◌==◌, any, arith, ◌≤◌, All, ==_iff,
  ||-eq-false,
}
use relay_x.Text.{Text}
use relay_x.Text.Split.{has_char}
use relay_x.Errors.{ok, raise_if, raise_if-ok, guard-eq-ok, >>=-eq-ok, protocol_error}
use relay_x.Models.{
  HeaderList, token_separators, is_ctl, has_ctl, is_empty, is_separator, validate_http_token,
  has_line_break, validate_header_list,
}

-- A character of an HTTP token: no control character, and none of the separators.
abbrev pub IsTokenChar : ℕ → Type 0
IsTokenChar c = (32 ≤ c) × (c ≢ 127) × All (λ d. c ≢ d) token_separators

pub record IsToken (s : Text) : Type 0 where
  pub nonempty : s ≢ []
  pub chars : All IsTokenChar s

-- A header that cannot break out of its line.
pub record IsHeader (h : Text × Text) : Type 0 where
  pub name : IsToken h.0
  pub no_cr : All (λ c. c ≢ 13) h.1
  pub no_lf : All (λ c. c ≢ 10) h.1

or_false : (a b : Bool) → a ≡ false → b ≡ false → (a || b) ≡ false
or_false a b h k = ground arith

All-ne : (c : ℕ) (s : List ℕ) → has_char c s ≡ false → All (λ d. c ≢ d) s
All-ne c [] h = tt
All-ne c (d ∷ s) h =
    let (x, y) = ||-eq-false (c == d) (has_char c s) h in
    ((λ e. ground (arith, (==_iff c d).1 e)), All-ne c s y)

has_char-false : (c : ℕ) (s : List ℕ) → All (λ d. c ≢ d) s → has_char c s ≡ false
has_char-false c [] h = refl
has_char-false c (d ∷ s) (n, h) =
    or_false (c == d) (has_char c s) (ground arith) (has_char-false c s h)

All-ne_flip : (c : ℕ) (s : List ℕ) → has_char c s ≡ false → All (λ d. d ≢ c) s
All-ne_flip c [] h = tt
All-ne_flip c (d ∷ s) h =
    let (x, y) = ||-eq-false (c == d) (has_char c s) h in (ground arith, All-ne_flip c s y)

has_char-false_flip : (c : ℕ) (s : List ℕ) → All (λ d. d ≢ c) s → has_char c s ≡ false
has_char-false_flip c [] h = refl
has_char-false_flip c (d ∷ s) (n, h) =
    or_false (c == d) (has_char c s) (ground arith) (has_char-false_flip c s h)

not_ctl : (c : ℕ) → is_ctl c ≡ false → (32 ≤ c) × (c ≢ 127)
not_ctl c h = ground arith

is_ctl-false : (c : ℕ) → 32 ≤ c → c ≢ 127 → is_ctl c ≡ false
is_ctl-false c a b = ground arith

token_chars : (s : Text) → has_ctl s ≡ false → any is_separator s ≡ false → All IsTokenChar s
token_chars [] h k = tt
token_chars (c ∷ s) h k =
    let (hc, hs) = ||-eq-false (is_ctl c) (has_ctl s) h in
    let (kc, ks) = ||-eq-false (is_separator c) (any is_separator s) k in
    let (low, del) = not_ctl c hc in ((low, del, All-ne c token_separators kc), token_chars s hs ks)

chars_token : (s : Text) → All IsTokenChar s → (has_ctl s ≡ false) × (any is_separator s ≡ false)
chars_token [] h = (refl, refl)
chars_token (c ∷ s) ((a, b, d), h) =
    let (x, y) = chars_token s h in
    (
      or_false (is_ctl c) (has_ctl s) (is_ctl-false c a b) x,
      or_false (is_separator c) (any is_separator s) (has_char-false c token_separators d) y,
    )

pub is_empty-false : (s : Text) → is_empty s ≡ false → s ≢ []
is_empty-false [] h = cc
is_empty-false (c ∷ s) h = cc

pub ne-nil_of_nonempty : (s : Text) → s ≢ [] → is_empty s ≡ false
ne-nil_of_nonempty [] h = absurd (h refl)
ne-nil_of_nonempty (c ∷ s) h = refl

-- A token is accepted exactly when it is not empty and holds no control character and no
-- separator.
pub validate_http_token_iff : (s : Text) → (validate_http_token s ≡ ok tt) ↔ IsToken s
unfolding validate_http_token
validate_http_token_iff s = (forth, back)
  where
    forth :
        raise_if (is_empty s || (has_ctl s || any is_separator s)) protocol_error ≡ ok tt
        → IsToken s
    forth h =
        let (a, r) = ||-eq-false (is_empty s) _ (raise_if-ok _ protocol_error h) in
        let (b, c) = ||-eq-false (has_ctl s) (any is_separator s) r in
        record { nonempty = is_empty-false s a; chars = token_chars s b c }

    back :
        IsToken s
        → raise_if (is_empty s || (has_ctl s || any is_separator s)) protocol_error ≡ ok tt
    back t = let (x, y) = chars_token s t.chars in rw (ne-nil_of_nonempty s t.nonempty, x, y)

IsHeader-ok :
    (name value : Text) (rest : HeaderList)
    → validate_header_list ((name, value) ∷ rest) ≡ ok tt
    → IsHeader (name, value) × (validate_header_list rest ≡ ok tt)
unfolding validate_header_list
IsHeader-ok name value rest h =
    let (x, e, h1) = >>=-eq-ok (validate_http_token name) _ h in
    let (b, h2) = guard-eq-ok (has_line_break value) protocol_error _ h1 in
    let (cr, lf) = ||-eq-false (has_char 13 value) (has_char 10 value) b in
    (
      record {
        name = (validate_http_token_iff name).0 e;
        no_cr = All-ne_flip 13 value cr;
        no_lf = All-ne_flip 10 value lf;
      },
      h2,
    )

headers_ok : (hs : HeaderList) → validate_header_list hs ≡ ok tt → All IsHeader hs
headers_ok [] h = tt
headers_ok ((name, value) ∷ rest) h =
    let (first, others) = IsHeader-ok name value rest h in (first, headers_ok rest others)

ok_headers : (hs : HeaderList) → All IsHeader hs → validate_header_list hs ≡ ok tt
unfolding validate_header_list
ok_headers [] h = refl
ok_headers ((name, value) ∷ rest) (h, hs) =
    rw
      (
        (validate_http_token_iff name).1 h.name,
        has_char-false_flip 13 value h.no_cr,
        has_char-false_flip 10 value h.no_lf,
      )
      (ok_headers rest hs)

-- A header list is accepted exactly when every name is a token and no value holds a carriage
-- return or a line feed.
pub validate_header_list_iff :
    (hs : HeaderList) → (validate_header_list hs ≡ ok tt) ↔ All IsHeader hs
validate_header_list_iff hs = (headers_ok hs, ok_headers hs)
