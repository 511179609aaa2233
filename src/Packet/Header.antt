-- ===== src/Packet/Header.antt =====
-- The 44 bytes of associated data: `_aad` and `_parse_aad` are inverse to one another.
use relay_x.Prelude.{
  ℕ, ◌<◌, ◌≡◌, refl, sym, ap, ◌∙◌, ◌^◌, [], ◌∷◌, ◌++◌, length, length-append, take, drop,
  take-length, length-drop, length-take, All-take, take-append-drop, drop-drop, arith,
}
use relay_x.Text.{Bytes}
use relay_x.Constants.{magic}
use relay_x.Errors.{ok, ok-injective}
use relay_x.Struct.{IsBytes, pack_uint, unpack_uint, field_at}
use relay_x.Struct.Laws.{
  length-pack_uint, unpack_uint-pack_uint, pack_uint-unpack_uint, pack_uint-byte, pack_uint-cases,
  pack_bytes_of_length, pack_uint_total, take_exact, drop_past,
}
use relay_x.Packet.{Aad, make_aad, parse_aad}

-- The bytes of a header with the given type, flags, packed timestamp and nonces.
abbrev pub layout : ℕ → ℕ → Bytes → Bytes → Bytes → Bytes
layout type_id flags ts nonce_id aead_nonce =
    82 ∷ 76 ∷ 88 ∷ 49 ∷ 1 ∷ type_id ∷ flags ∷ 0 ∷ (ts ++ (nonce_id ++ aead_nonce))

-- What makes the fields of a header packable.
pub record IsPackable (type_id flags : ℕ) (timestamp_ms : ℕ) (nonce_id aead_nonce : Bytes)
    : Type 0 where
  pub type_byte : type_id < 256
  pub flags_byte : flags < 256
  pub timestamp_u64 : timestamp_ms < 256 ^ 8
  pub nonce_size : length nonce_id ≡ 16
  pub aead_nonce_size : length aead_nonce ≡ 12

module _ (t f ts : ℕ) (n a : Bytes) where
  pub IsPackable-of_ok : (b : Bytes) → make_aad t f ts n a ≡ ok b → IsPackable t f ts n a
  unfolding make_aad
  IsPackable-of_ok b h =
      ground (arith, pack_uint-cases 1 t, pack_uint-cases 1 f, pack_uint-cases 8 ts)

  make_aad-layout :
      (packed : Bytes)
      → IsPackable t f ts n a
      → pack_uint 8 ts ≡ ok packed
      → make_aad t f ts n a ≡ ok (layout t f packed n a)
  unfolding make_aad
  make_aad-layout packed p e = ground (
    arith,
    pack_uint-byte t p.type_byte,
    pack_uint-byte f p.flags_byte,
    pack_uint-byte 1 (omega arith),
    pack_uint-byte 0 (omega arith),
    pack_bytes_of_length 4 magic refl,
    pack_bytes_of_length 16 n p.nonce_size,
    pack_bytes_of_length 12 a p.aead_nonce_size,
  )

length-layout :
    (t f : ℕ) (ts n a : Bytes)
    → length ts ≡ 8
    → length n ≡ 16
    → length a ≡ 12
    → length (layout t f ts n a) ≡ 44
length-layout t f ts n a x y z = omega (arith, length-append ts (n ++ a), length-append n a)

abbrev pub fields : ℕ → ℕ → ℕ → Bytes → Bytes → Aad
fields t f ts n a = record {
  magic_bytes = magic;
  version_id = 1;
  type_id = t;
  flags = f;
  reserved_byte = 0;
  timestamp_ms = ts;
  nonce_id = n;
  aead_nonce = a;
}

unpack_byte : (n : ℕ) → n < 256 → unpack_uint (n ∷ []) ≡ n
unpack_byte n h = unpack_uint-pack_uint 1 n (n ∷ []) (pack_uint-byte n h)

parse_aad-layout :
    (t f ts : ℕ) (packed n a : Bytes)
    → IsPackable t f ts n a
    → pack_uint 8 ts ≡ ok packed
    → parse_aad (layout t f packed n a) ≡ ok (fields t f ts n a)
parse_aad-layout t f ts packed n a p e =
    let lp : length packed ≡ 8 = length-pack_uint 8 ts packed e in
    let size = length-layout t f packed n a lp p.nonce_size p.aead_nonce_size in
    let e8 : field_at 8 8 (layout t f packed n a) ≡ packed = take_exact 8 packed (n ++ a) lp in
    let e16 : field_at 16 16 (layout t f packed n a) ≡ n =
      ap (take 16) (drop_past 8 0 packed (n ++ a) lp) ∙ take_exact 16 n a p.nonce_size in
    let e32 : field_at 32 12 (layout t f packed n a) ≡ a =
      ap (take 12) (drop_past 8 16 packed (n ++ a) lp ∙ drop_past 16 0 n a p.nonce_size)
      ∙ take-length 12 a (omega (arith, p.aead_nonce_size)) in
    unfold parse_aad in
    ground (
      arith,
      size,
      e8,
      e16,
      e32,
      unpack_byte t p.type_byte,
      unpack_byte f p.flags_byte,
      unpack_byte 0 (omega arith),
      unpack_byte 1 (omega arith),
      unpack_uint-pack_uint 8 ts packed e,
    )

regroup : (r : Bytes) → length r ≡ 36 → take 8 r ++ (take 16 (drop 8 r) ++ take 12 (drop 24 r)) ≡ r
regroup r size =
    rw (take-length 12 (drop 24 r) (omega (arith, length-drop 24 r)), ← drop-drop 16 8 r)
      (rw (take-append-drop 16 (drop 8 r)) (take-append-drop 8 r))

make_aad-fields :
    (t f : ℕ) (r : Bytes)
    → t < 256
    → f < 256
    → IsBytes r
    → length r ≡ 36
    → make_aad
        (unpack_uint (t ∷ []))
        (unpack_uint (f ∷ []))
        (unpack_uint (take 8 r))
        (take 16 (drop 8 r))
        (take 12 (drop 24 r))
      ≡ ok (82 ∷ 76 ∷ 88 ∷ 49 ∷ 1 ∷ t ∷ f ∷ 0 ∷ r)
make_aad-fields t f r ht hf bytes size =
    let l8 : length (take 8 r) ≡ 8 = omega (arith, length-take 8 r) in
    let e : pack_uint 8 (unpack_uint (take 8 r)) ≡ ok (take 8 r) =
      ap (λ k. pack_uint k (unpack_uint (take 8 r))) (sym l8)
      ∙ pack_uint-unpack_uint (take 8 r) (All-take (λ b. b < 256) 8 r bytes) in
    rw (unpack_byte t ht, unpack_byte f hf)
      (make_aad-layout t f (unpack_uint (take 8 r)) (take 16 (drop 8 r)) (take 12 (drop 24 r))
          (take 8 r)
          (record {
            type_byte = ht;
            flags_byte = hf;
            timestamp_u64 = ground (arith, pack_uint-cases 8 (unpack_uint (take 8 r)), e);
            nonce_size = omega (arith, length-take 16 (drop 8 r), length-drop 8 r);
            aead_nonce_size = omega (arith, length-take 12 (drop 24 r), length-drop 24 r);
          })
          e
        ∙ ap (λ x. ok (82 ∷ 76 ∷ 88 ∷ 49 ∷ 1 ∷ t ∷ f ∷ 0 ∷ x)) (regroup r size))

-- A header of bytes that _parse_aad reads, with the protocol's magic, version and reserved byte,
-- is what _aad packs from its other fields.
pub make_aad-parse_aad :
    (b : Bytes) (h : Aad)
    → IsBytes b
    → parse_aad b ≡ ok h
    → h.magic_bytes ≡ magic
    → h.version_id ≡ 1
    → h.reserved_byte ≡ 0
    → make_aad h.type_id h.flags h.timestamp_ms h.nonce_id h.aead_nonce ≡ ok b
unfolding parse_aad
make_aad-parse_aad (b0 ∷ b1 ∷ b2 ∷ b3 ∷ b4 ∷ b5 ∷ b6 ∷ b7 ∷ r) h bytes parsed m v z =
    let size : length r ≡ 36 = ground arith in
    let (h4, rest) = bytes.1.1.1.1 in
    let (h5, rest5) = rest in
    let (h6, rest6) = rest5 in
    let (h7, hr) = rest6 in
    let e4 = unpack_byte b4 h4 in
    let e7 = unpack_byte b7 h7 in
    let done = make_aad-fields b5 b6 r h5 h6 hr size in ground (arith, e4, e7, done)
make_aad-parse_aad b h bytes parsed m v z = cc

-- What _aad packs has 44 bytes, and _parse_aad reads it back: the protocol's magic, version and
-- reserved byte, and the type, flags, timestamp and nonces that were packed.
pub parse_aad-make_aad :
    (t f ts : ℕ) (n a b : Bytes)
    → make_aad t f ts n a ≡ ok b
    → (length b ≡ 44) × (parse_aad b ≡ ok (fields t f ts n a))
parse_aad-make_aad t f ts n a b h =
    let p = IsPackable-of_ok t f ts n a b h in
    let (packed, e) = pack_uint_total 8 ts p.timestamp_u64 in
    let same : b ≡ layout t f packed n a =
      ok-injective (sym h ∙ make_aad-layout t f ts n a packed p e) in
    rw same (
      length-layout t f packed n a (length-pack_uint 8 ts packed e) p.nonce_size p.aead_nonce_size,
      parse_aad-layout t f ts packed n a p e,
    )

-- Fields that fit are packed.
pub make_aad_total :
    (t f ts : ℕ) (n a : Bytes) → IsPackable t f ts n a → (b : Bytes) × (make_aad t f ts n a ≡ ok b)
make_aad_total t f ts n a p =
    let (packed, e) = pack_uint_total 8 ts p.timestamp_u64 in
    (layout t f packed n a, make_aad-layout t f ts n a packed p e)
