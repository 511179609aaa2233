-- ===== src/Keys/Answers.antt =====
-- What a decoded key is.
use relay_x.Prelude.{
  ℕ, ◌+◌, ◌*◌, ◌/◌, ◌%◌, ◌<◌, ◌≡◌, refl, ◌⊎◌, inl, inr, [], ◌∷◌, Bool, true, false, ◌&&◌, ◌==◌, all,
  All, length, Option, some, none, if◌then◌else◌, arith, Option-cases, Bool-cases,
}
use mathlib.Core.Path.{subst}
use relay_x.Text.{Text, Bytes}
use relay_x.Errors.{ok, err, config_error}
use relay_x.Models.{is_empty}
use relay_x.Keys.Base64.{sextet, three, group, groups_from, b64decode, ◌>>=◌}
use relay_x.Keys.{decode_encryption_key}

sextet-lt : (c n : ℕ) → sextet c ≡ some n → n < 64
unfolding sextet
sextet-lt c n h = ground arith

-- Nothing is decoded, or bytes are.
abbrev AreBytes : Option Bytes → Type 0
AreBytes none = Unit
AreBytes (some bytes) = All (λ b. b < 256) bytes

first_lt : (x y : ℕ) → x < 64 → y < 64 → x * 4 + y / 16 < 256
first_lt x y hx hy = omega arith

second_lt : (y z : ℕ) → z < 64 → y % 16 * 16 + z / 4 < 256
second_lt y z hz = omega arith

third_lt : (z t : ℕ) → t < 64 → z % 4 * 64 + t < 256
third_lt z t ht = omega arith

three-AreBytes :
    (x y z d : ℕ) (is_last : Bool) (more : Option Bytes)
    → x < 64
    → y < 64
    → z < 64
    → AreBytes more
    → AreBytes (three x y d is_last more (some z))
three-AreBytes x y z d is_last more hx hy hz h = elim (Bool-cases (d == b'=')) [
  | inl pad ↦ rw pad (padded is_last)
  | inr no_pad ↦ rw no_pad (whole (Option-cases (sextet d)))
]
  where
    padded :
        (l : Bool)
        → AreBytes (if l then some ((x * 4 + y / 16) ∷ (y % 16 * 16 + z / 4) ∷ []) else none)
    padded true = (first_lt x y hx hy, (second_lt y z hz, tt))
    padded false = tt

    tail :
        (t : ℕ) (o : Option Bytes)
        → t < 64
        → AreBytes o
        → AreBytes (
            o >>= λ bytes.
            some ((x * 4 + y / 16) ∷ (y % 16 * 16 + z / 4) ∷ (z % 4 * 64 + t) ∷ bytes))
    tail t none ht k = tt
    tail t (some bytes) ht k = (first_lt x y hx hy, (second_lt y z hz, (third_lt z t ht, k)))

    whole :
        (sextet d ≡ none) ⊎ ((t : ℕ) × (sextet d ≡ some t))
        → AreBytes (
            sextet d >>= λ t. more >>= λ bytes.
            some ((x * 4 + y / 16) ∷ (y % 16 * 16 + z / 4) ∷ (z % 4 * 64 + t) ∷ bytes))
    whole (inl e) = rw e tt
    whole (inr (t, e)) = rw e (tail t more (sextet-lt d t e) h)

group-AreBytes :
    (a b c d : ℕ) (is_last : Bool) (more : Option Bytes)
    → AreBytes more
    → AreBytes (group a b c d is_last more)
unfolding group
group-AreBytes a b c d is_last more h = elim (Option-cases (sextet a)) [
  | inl e ↦ rw e tt
  | inr (x, ea) ↦ elim (Option-cases (sextet b)) [
    | inl e ↦ rw (ea, e) tt
    | inr (y, eb) ↦
        rw (ea, eb) (inner x y (sextet-lt a x ea) (sextet-lt b y eb) (Bool-cases (c == b'=')))
  ]
]
  where
    one :
        (x y : ℕ)
        → x < 64
        → y < 64
        → (l : Bool) → AreBytes (if l then some ((x * 4 + y / 16) ∷ []) else none)
    one x y hx hy true = (first_lt x y hx hy, tt)
    one x y hx hy false = tt

    third :
        (x y : ℕ)
        → x < 64
        → y < 64
        → (o : Option ℕ) → sextet c ≡ o
        → AreBytes (three x y d is_last more o)
    third x y hx hy none e = tt
    third x y hx hy (some z) e = three-AreBytes x y z d is_last more hx hy (sextet-lt c z e) h

    inner :
        (x y : ℕ)
        → x < 64
        → y < 64
        → ((c == b'=') ≡ true) ⊎ ((c == b'=') ≡ false)
        → AreBytes (
            if c == b'='
            then (if d == b'=' && is_last then some ((x * 4 + y / 16) ∷ []) else none)
            else three x y d is_last more (sextet c))
    inner x y hx hy (inl e) = rw e (one x y hx hy (d == b'=' && is_last))
    inner x y hx hy (inr e) = rw e (third x y hx hy (sextet c) refl)

if-AreBytes :
    (b : Bool) (p q : Option Bytes) → AreBytes p → AreBytes q → AreBytes (if b then p else q)
if-AreBytes true p q h k = h
if-AreBytes false p q h k = k

pads_only : (b : Bool) → AreBytes (if b then some [] else none)
pads_only true = tt
pads_only false = tt

groups_from-AreBytes : (text : Text) → AreBytes (groups_from text)
unfolding groups_from
groups_from-AreBytes [] = tt
groups_from-AreBytes (a ∷ []) = pads_only (all (λ p. p == b'=') (a ∷ []))
groups_from-AreBytes (a ∷ b ∷ []) = pads_only (all (λ p. p == b'=') (a ∷ b ∷ []))
groups_from-AreBytes (a ∷ b ∷ c ∷ []) = pads_only (all (λ p. p == b'=') (a ∷ b ∷ c ∷ []))
groups_from-AreBytes (a ∷ b ∷ c ∷ d ∷ rest) =
    if-AreBytes (all (λ p. p == b'=') (a ∷ b ∷ c ∷ d ∷ rest)) (some [])
      (group a b c d (is_empty rest) (groups_from rest)) tt
      (group-AreBytes a b c d (is_empty rest) (groups_from rest) (groups_from-AreBytes rest))

b64decode-AreBytes : (text : Text) → AreBytes (b64decode text)
unfolding b64decode
b64decode-AreBytes [] = tt
b64decode-AreBytes (c ∷ s) =
    if-AreBytes (c == b'=') none (groups_from (c ∷ s)) tt (groups_from-AreBytes (c ∷ s))

-- For every text, decode_encryption_key returns a key, which is what strict base64 decodes of it
-- and has 32 bytes, each below 256, or it raises ConfigError; it raises nothing else.
pub decode_encryption_key-IsKey :
    (value : Text)
    → ((key : Bytes) × (decode_encryption_key value ≡ ok key)
        × (b64decode value ≡ some key)
        × (length key ≡ 32)
        × All (λ b. b < 256) key)
      ⊎ (decode_encryption_key value ≡ err config_error)
unfolding decode_encryption_key
decode_encryption_key-IsKey value = elim (Option-cases (b64decode value)) [
  | inl e ↦ inr (rw e)
  | inr (key, e) ↦ elim (Bool-cases (length key == 32)) [
    | inl size ↦
        inl (key, rw (e, size), e, ground arith, subst AreBytes e (b64decode-AreBytes value))
    | inr other ↦ inr (rw (e, other))
  ]
]
