-- ===== src/Keys/Roundtrip.antt =====
-- About decoding what b64encode makes of a key.
use relay_x.Prelude.{
  ℕ, ◌+◌, ◌*◌, ◌/◌, ◌%◌, ◌<◌, ◌≡◌, refl, ◌∙◌, List, [], ◌∷◌, Bool, true, false, ◌==◌, all, All,
  length, Option, some, arith,
}
use relay_x.Text.{Text, Bytes}
use relay_x.Errors.{ok}
use relay_x.Models.{is_empty}
use relay_x.Keys.Base64.{letter, sextet, group, groups_from, b64encode, b64decode}
use relay_x.Keys.{decode_encryption_key}

sextet-letter : (n : ℕ) → n < 64 → sextet (letter n) ≡ some n
unfolding sextet letter
sextet-letter n h = ground arith

letter_no_pad : (n : ℕ) → n < 64 → (letter n == b'=') ≡ false
unfolding letter
letter_no_pad n h = ground arith

all-cons-false : (p : ℕ → Bool) (c : ℕ) (s : List ℕ) → p c ≡ false → all p (c ∷ s) ≡ false
all-cons-false p c s h = ground arith

-- The bits that two sextets share of a byte make it up.
first_byte : (a b : ℕ) → b < 256 → a / 4 * 4 + (a % 4 * 16 + b / 16) / 16 ≡ a
first_byte a b h = omega arith

second_byte :
    (a b c : ℕ)
    → b < 256
    → c < 256
    → (a % 4 * 16 + b / 16) % 16 * 16 + (b % 16 * 4 + c / 64) / 4 ≡ b
second_byte a b c h k = omega arith

third_byte : (b c : ℕ) → c < 256 → (b % 16 * 4 + c / 64) % 4 * 64 + c % 64 ≡ c
third_byte b c h = omega arith

first_alone : (a : ℕ) → a / 4 * 4 + a % 4 * 16 / 16 ≡ a
first_alone a = omega arith

second_alone : (a b : ℕ) → b < 256 → (a % 4 * 16 + b / 16) % 16 * 16 + b % 16 * 4 / 4 ≡ b
second_alone a b h = omega arith

-- A whole group gives its three bytes back.
group_of_three :
    (a b c : ℕ) (is_last : Bool) (more : Option Bytes) (bytes : Bytes)
    → a < 256
    → b < 256
    → c < 256
    → more ≡ some bytes
    → group
        (letter (a / 4))
        (letter (a % 4 * 16 + b / 16))
        (letter (b % 16 * 4 + c / 64))
        (letter (c % 64))
        is_last
        more
      ≡ some (a ∷ b ∷ c ∷ bytes)
unfolding group
group_of_three a b c is_last more bytes ha hb hc e =
    rw
      (
        sextet-letter (a / 4) (omega arith),
        sextet-letter (a % 4 * 16 + b / 16) (omega arith),
        letter_no_pad (b % 16 * 4 + c / 64) (omega arith),
        sextet-letter (b % 16 * 4 + c / 64) (omega arith),
        letter_no_pad (c % 64) (omega arith),
        sextet-letter (c % 64) (omega arith),
        e,
      )
      (rw (first_byte a b hb, second_byte a b c hb hc, third_byte b c hc))

group_of_two :
    (a b : ℕ)
    → a < 256
    → b < 256
    → group
        (letter (a / 4))
        (letter (a % 4 * 16 + b / 16))
        (letter (b % 16 * 4))
        b'='
        true
        (some [])
      ≡ some (a ∷ b ∷ [])
unfolding group
group_of_two a b ha hb =
    rw
      (
        sextet-letter (a / 4) (omega arith),
        sextet-letter (a % 4 * 16 + b / 16) (omega arith),
        letter_no_pad (b % 16 * 4) (omega arith),
        sextet-letter (b % 16 * 4) (omega arith),
      )
      (rw (first_byte a b hb, second_alone a b hb))

group_of_one :
    (a : ℕ)
    → a < 256
    → group (letter (a / 4)) (letter (a % 4 * 16)) b'=' b'=' true (some []) ≡ some (a ∷ [])
unfolding group
group_of_one a ha =
    rw (sextet-letter (a / 4) (omega arith), sextet-letter (a % 4 * 16) (omega arith))
      (rw (first_alone a))

groups_from-b64encode :
    (bytes : Bytes) → All (λ b. b < 256) bytes → groups_from (b64encode bytes) ≡ some bytes
unfolding groups_from b64encode
groups_from-b64encode [] h = refl
groups_from-b64encode (a ∷ []) (ha, h) =
    rw (letter_no_pad (a / 4) (omega arith)) (group_of_one a ha)
groups_from-b64encode (a ∷ b ∷ []) (ha, (hb, h)) =
    rw (letter_no_pad (a / 4) (omega arith)) (group_of_two a b ha hb)
groups_from-b64encode (a ∷ b ∷ c ∷ rest) (ha, (hb, (hc, h))) =
    rw (letter_no_pad (a / 4) (omega arith)) (
      group_of_three a b c (is_empty (b64encode rest)) (groups_from (b64encode rest)) rest ha hb hc
        (groups_from-b64encode rest h))

-- Nothing that is encoded starts with a pad.
leading_letter : (c : ℕ) (s : Text) → (c == b'=') ≡ false → b64decode (c ∷ s) ≡ groups_from (c ∷ s)
unfolding b64decode
leading_letter c s h = rw h

pub b64decode-b64encode :
    (bytes : Bytes) → All (λ b. b < 256) bytes → b64decode (b64encode bytes) ≡ some bytes
unfolding b64encode b64decode
b64decode-b64encode [] h = refl
b64decode-b64encode (a ∷ []) h =
    leading_letter (letter (a / 4)) (letter (a % 4 * 16) ∷ b'=' ∷ b'=' ∷ [])
      (letter_no_pad (a / 4) (omega (arith, h.0)))
    ∙ groups_from-b64encode (a ∷ []) h
b64decode-b64encode (a ∷ b ∷ []) h =
    leading_letter (letter (a / 4)) (letter (a % 4 * 16 + b / 16) ∷ letter (b % 16 * 4) ∷ b'=' ∷ [])
      (letter_no_pad (a / 4) (omega (arith, h.0)))
    ∙ groups_from-b64encode (a ∷ b ∷ []) h
b64decode-b64encode (a ∷ b ∷ c ∷ rest) h =
    leading_letter (letter (a / 4))
      (letter (a % 4 * 16 + b / 16)
        ∷ letter (b % 16 * 4 + c / 64)
        ∷ letter (c % 64)
        ∷ b64encode rest)
      (letter_no_pad (a / 4) (omega (arith, h.0)))
    ∙ groups_from-b64encode (a ∷ b ∷ c ∷ rest) h

-- A key of 32 bytes, encoded, is decoded to itself.
pub decode_encryption_key-b64encode :
    (key : Bytes)
    → All (λ b. b < 256) key
    → length key ≡ 32
    → decode_encryption_key (b64encode key) ≡ ok key
unfolding decode_encryption_key
decode_encryption_key-b64encode key bytes size = rw (b64decode-b64encode key bytes, size)
