-- ===== src/Struct/Laws.antt =====
-- Packing and unpacking are inverse to one another.
use mathlib.Core.List.{reverse, reverse-reverse, reverse-cons}
use native.Mathlib.Nat.{pow-suc}
use relay_x.Prelude.{
  ℕ, zero, suc, ◌+◌, ◌/◌, ◌^◌, ◌<◌, ◌≡◌, refl, ap, ◌∙◌, ap₂, sym, ◌⊎◌, [], ◌∷◌, ◌++◌, take, drop,
  arith, length, length-reverse, All-append, take-append, lt→ltb,
}
use relay_x.Text.{Bytes}
use relay_x.Errors.{ok, err, struct_error}
use relay_x.Struct.{IsBytes, little, from_little, pack_uint, unpack_uint, pack_bytes}

length-little : (size n : ℕ) → length (little size n) ≡ size
unfolding little
length-little zero n = refl
length-little (suc size) n = ap suc (length-little size (n / 256))

little-IsBytes : (size n : ℕ) → IsBytes (little size n)
unfolding little
little-IsBytes zero n = tt
little-IsBytes (suc size) n = (omega arith, little-IsBytes size (n / 256))

from_little-little : (size n : ℕ) → n < 256 ^ size → from_little (little size n) ≡ n
unfolding little from_little
from_little-little zero n h = omega arith
from_little-little (suc size) n h =
    omega (arith, from_little-little size (n / 256) (omega (arith, pow-suc 256 size)))

from_little-lt : (bs : Bytes) → IsBytes bs → from_little bs < 256 ^ length bs
unfolding from_little
from_little-lt [] h = omega arith
from_little-lt (b ∷ bs) (h, hs) = omega (arith, from_little-lt bs hs, pow-suc 256 (length bs))

little-from_little : (bs : Bytes) → IsBytes bs → little (length bs) (from_little bs) ≡ bs
unfolding little from_little
little-from_little [] h = refl
little-from_little (b ∷ bs) (h, hs) =
    ap₂ {A = ℕ} (λ x xs. x ∷ xs) (omega arith)
      (ap (little (length bs)) (omega arith) ∙ little-from_little bs hs)

reverse-IsBytes : (bs : Bytes) → IsBytes bs → IsBytes (reverse bs)
reverse-IsBytes [] h = tt
reverse-IsBytes (b ∷ bs) (h, hs) =
    rw reverse-cons
      (All-append (λ x. x < 256) (reverse bs) (b ∷ []) (reverse-IsBytes bs hs) (h, tt))

-- What was packed is unpacked.
pub unpack_uint-pack_uint :
    (size n : ℕ) (bs : Bytes) → pack_uint size n ≡ ok bs → unpack_uint bs ≡ n
unfolding pack_uint unpack_uint
unpack_uint-pack_uint size n bs h =
    ground (arith, reverse-reverse (little size n), from_little-little size n)

pub length-pack_uint : (size n : ℕ) (bs : Bytes) → pack_uint size n ≡ ok bs → length bs ≡ size
unfolding pack_uint
length-pack_uint size n bs h = ground (arith, length-reverse (little size n), length-little size n)

pub pack_uint-IsBytes : (size n : ℕ) (bs : Bytes) → pack_uint size n ≡ ok bs → IsBytes bs
unfolding pack_uint
pack_uint-IsBytes size n bs h =
    ground (arith, reverse-IsBytes (little size n) (little-IsBytes size n))

pub pack_uint_total : (size n : ℕ) → n < 256 ^ size → (bs : Bytes) × (pack_uint size n ≡ ok bs)
unfolding pack_uint
pack_uint_total size n h = (reverse (little size n), rw (lt→ltb n (256 ^ size) h))

-- What was unpacked is packed again.
pub pack_uint-unpack_uint :
    (bs : Bytes) → IsBytes bs → pack_uint (length bs) (unpack_uint bs) ≡ ok bs
unfolding pack_uint unpack_uint
pack_uint-unpack_uint bs h =
    let r = reverse-IsBytes bs h in
    rw (← length-reverse bs) (
      rw (lt→ltb _ _ (from_little-lt (reverse bs) r), little-from_little (reverse bs) r)
        (ap ok (reverse-reverse bs)))

pub pack_bytes-exact : (bs : Bytes) → pack_bytes (length bs) bs ≡ bs
unfolding pack_bytes
pack_bytes-exact bs = take-append bs _

-- One byte.
pub pack_uint-byte : (n : ℕ) → n < 256 → pack_uint 1 n ≡ ok (n ∷ [])
unfolding pack_uint little
pack_uint-byte n h = ground arith

pub pack_uint-cases : (size n : ℕ) → (n < 256 ^ size) ⊎ (pack_uint size n ≡ err struct_error)
unfolding pack_uint
pack_uint-cases size n = ground arith

pub pack_bytes_of_length : (size : ℕ) (bs : Bytes) → length bs ≡ size → pack_bytes size bs ≡ bs
pack_bytes_of_length size bs h = rw (← h) (pack_bytes-exact bs)

-- Reading a field behind a part whose length is known.
pub take_exact : (n : ℕ) (xs ys : Bytes) → length xs ≡ n → take n (xs ++ ys) ≡ xs
take_exact n xs ys h = rw (← h) (take-append xs ys)

pub drop_past : (n k : ℕ) (xs ys : Bytes) → length xs ≡ n → drop (n + k) (xs ++ ys) ≡ drop k ys
drop_past zero k [] ys h = ap (λ m. drop m ys) (omega arith)
drop_past zero k (x ∷ xs) ys h = absurd (omega arith)
drop_past (suc n) k [] ys h = absurd (omega arith)
drop_past (suc n) k (x ∷ xs) ys h =
    let e : suc n + k ≡ suc (n + k) = omega arith in rw e (drop_past n k xs ys (omega arith))

pub pack_uint-unpack_uint_of_length :
    (size : ℕ) (bs : Bytes)
    → length bs ≡ size
    → IsBytes bs
    → pack_uint size (unpack_uint bs) ≡ ok bs
pack_uint-unpack_uint_of_length size bs h bytes =
    ap (λ k. pack_uint k (unpack_uint bs)) (sym h) ∙ pack_uint-unpack_uint bs bytes
