-- ===== src/Packet/Sealing.antt =====
-- What `seal` makes, and that `open_packet` gives it back.
use relay_x.Prelude.{
  ℕ, ◌+◌, ◌≤◌, ◌<◌, ◌≡◌, refl, sym, ap, ◌∙◌, ◌^◌, Bool, true, false, ◌⊎◌, ◌++◌, ◌==◌, length,
  length-append, if◌then◌else◌, take, drop, arith, some, ltb-eq-false, ==_iff,
}
use relay_x.Text.{Bytes}
use relay_x.Text.Equality.{text_eq}
use relay_x.Constants.{flag_compressed}
use relay_x.Errors.{ok, ◌>>=◌, >>=-eq-ok, ok-injective}
use relay_x.Struct.{pack_uint, unpack_uint, field_at}
use relay_x.Struct.Laws.{
  length-pack_uint, unpack_uint-pack_uint, pack_uint_total, take_exact, drop_past,
}
use relay_x.Packet.{
  Aad, OpenedPacket, make_aad, parse_aad, seal, open_packet, decrypt_or_raise, is_invalid_header,
  is_compressed,
}
use relay_x.Packet.Aead.{Cipher, IsCipher}
use relay_x.Packet.Header.{make_aad_total, fields, parse_aad-make_aad}

abbrev pub flags_of : Bool → ℕ
flags_of compressed = if compressed then flag_compressed else 0

abbrev pub IsMessageType : ℕ → Type 0
IsMessageType t = (t ≡ 1) ⊎ ((t ≡ 2) ⊎ (t ≡ 3))

-- The parts of a sealed packet.
pub record IsSealed (cipher : Cipher) (p key : Bytes) (t : ℕ) (compressed : Bool) (ts : ℕ)
    (n a : Bytes) (packet : Bytes) : Type 0 where
  pub aad : Bytes
  pub len : Bytes
  pub ciphertext : Bytes
  pub packed : make_aad t (flags_of compressed) ts n a ≡ ok aad
  pub key_ok : cipher.construct key ≡ ok tt
  pub encrypted : cipher.encrypt key a p aad ≡ ok ciphertext
  pub len_packed : pack_uint 4 (length ciphertext) ≡ ok len
  pub joined : packet ≡ aad ++ (len ++ ciphertext)

module _ (cipher : Cipher) (p key : Bytes) (t : ℕ) (compressed : Bool) (ts : ℕ) (n a : Bytes) where
  pub IsSealed-of_ok :
      (packet : Bytes)
      → seal cipher p key t compressed ts n a ≡ ok packet
      → IsSealed cipher p key t compressed ts n a packet
  unfolding seal
  IsSealed-of_ok packet h =
      let (aad, e1, h1) = >>=-eq-ok _ _ h in
      let (u, e2, h2) = >>=-eq-ok _ _ h1 in
      let (ciphertext, e3, h3) = >>=-eq-ok _ _ h2 in
      let (len, e4, h4) = >>=-eq-ok _ _ h3 in
      record {
        aad = aad;
        len = len;
        ciphertext = ciphertext;
        packed = e1;
        key_ok = e2;
        encrypted = e3;
        len_packed = e4;
        joined = sym (ok-injective h4);
      }

valid_fields :
    (t : ℕ) (compressed : Bool) (ts : ℕ) (n a : Bytes)
    → IsMessageType t
    → is_invalid_header (fields t (flags_of compressed) ts n a) ≡ false
unfolding is_invalid_header text_eq
valid_fields t true ts n a h = ground arith
valid_fields t false ts n a h = ground arith

-- The three regions of a packet.
module _ (aad len ct : Bytes) (l44 : length aad ≡ 44) (l4 : length len ≡ 4) where
  take-packet : take 44 (aad ++ (len ++ ct)) ≡ aad
  take-packet = take_exact 44 aad (len ++ ct) l44

  len-packet : field_at 44 4 (aad ++ (len ++ ct)) ≡ len
  len-packet = ap (take 4) (drop_past 44 0 aad (len ++ ct) l44) ∙ take_exact 4 len ct l4

  drop-packet : drop 48 (aad ++ (len ++ ct)) ≡ ct
  drop-packet = drop_past 44 4 aad (len ++ ct) l44 ∙ drop_past 4 0 len ct l4

  length-packet : length (aad ++ (len ++ ct)) ≡ 48 + length ct
  length-packet = omega (arith, length-append aad (len ++ ct), length-append len ct)

-- open_packet, once the regions and the header of the packet are known
pub record HasRegions (packet aad len ct : Bytes) : Type 0 where
  pub aad_region : take 44 packet ≡ aad
  pub len_region : field_at 44 4 packet ≡ len
  pub ct_region : drop 48 packet ≡ ct
  pub size : length packet ≡ 48 + length ct

HasRegions-join :
    (aad len ct : Bytes)
    → length aad ≡ 44
    → length len ≡ 4
    → HasRegions (aad ++ (len ++ ct)) aad len ct
HasRegions-join aad len ct l44 l4 = record {
  aad_region = take-packet aad len ct l44 l4;
  len_region = len-packet aad len ct l44 l4;
  ct_region = drop-packet aad len ct l44 l4;
  size = length-packet aad len ct l44 l4;
}

abbrev pub opened : Aad → Bytes → OpenedPacket
opened h plaintext = record {
  type_id = h.type_id;
  compressed = is_compressed h.flags;
  timestamp_ms = h.timestamp_ms;
  nonce_id = h.nonce_id;
  plaintext = plaintext;
}

pub open_packet-parts :
    (cipher : Cipher) (key packet aad len ct : Bytes) (max : ℕ) (h : Aad)
    → HasRegions packet aad len ct
    → parse_aad aad ≡ ok h
    → is_invalid_header h ≡ false
    → unpack_uint len ≡ length ct
    → 0 < length ct
    → length ct ≤ max
    → cipher.construct key ≡ ok tt
    → open_packet cipher packet key max
      ≡ (decrypt_or_raise cipher key h.aead_nonce ct aad >>= λ plaintext. ok (opened h plaintext))
unfolding open_packet
open_packet-parts cipher key packet aad len ct max h r e1 e2 e3 e4 e5 e6 =
    let sized = ltb-eq-false (length packet) 48 (omega (arith, r.size)) in
    let full : (length ct == 0) ≡ false = ground arith in
    let fits = ltb-eq-false max (length ct) e5 in
    let same = (==_iff (length ct) (length ct)).1 refl in
    rw (sized, r.aad_region, e1, e2, r.len_region, e3, r.ct_region) (rw (full, fits, same, e6) refl)

decrypt_or_raise-some :
    (cipher : Cipher) (key a ct aad p : Bytes)
    → cipher.decrypt key a ct aad ≡ some p
    → decrypt_or_raise cipher key a ct aad ≡ ok p
unfolding decrypt_or_raise
decrypt_or_raise-some cipher key a ct aad p h = rw (h, decrypt_or_raise)

is_compressed-flags_of : (compressed : Bool) → is_compressed (flags_of compressed) ≡ compressed
is_compressed-flags_of true = refl
is_compressed-flags_of false = refl

-- What seal made of a message type is opened under the same key to the same plaintext, type,
-- compression flag, timestamp and nonce id, if the ciphertext is within the limit.
pub open_packet-seal :
    (cipher : Cipher) (p key : Bytes) (t : ℕ) (compressed : Bool) (ts : ℕ) (n a packet : Bytes)
    (max : ℕ)
    → IsCipher cipher
    → IsMessageType t
    → length p + 16 ≤ max
    → seal cipher p key t compressed ts n a ≡ ok packet
    → open_packet cipher packet key max
      ≡ ok (record {
        type_id = t;
        compressed = compressed;
        timestamp_ms = ts;
        nonce_id = n;
        plaintext = p;
      })
open_packet-seal cipher p key t compressed ts n a packet max laws type fits h =
    let s = IsSealed-of_ok cipher p key t compressed ts n a packet h in
    let (l44, parsed) = parse_aad-make_aad t (flags_of compressed) ts n a s.aad s.packed in
    let l4 = length-pack_uint 4 (length s.ciphertext) s.len s.len_packed in
    let l = laws.length-encrypt key a p s.aad s.ciphertext s.encrypted in
    rw s.joined (
      open_packet-parts cipher key (s.aad ++ (s.len ++ s.ciphertext)) s.aad s.len s.ciphertext max
        (fields t (flags_of compressed) ts n a) (HasRegions-join s.aad s.len s.ciphertext l44 l4)
        parsed (valid_fields t compressed ts n a type)
        (unpack_uint-pack_uint 4 (length s.ciphertext) s.len s.len_packed) (omega (arith, l))
        (omega (arith, l)) s.key_ok
      ∙ rw (
        decrypt_or_raise-some cipher key a s.ciphertext s.aad p
            (laws.decrypt-encrypt key a p s.aad s.ciphertext s.encrypted),
        is_compressed-flags_of,
      ))

flags_of-lt : (compressed : Bool) → flags_of compressed < 256
flags_of-lt true = omega arith
flags_of-lt false = omega arith

pub seal-parts :
    (cipher : Cipher) (p key : Bytes) (t : ℕ) (compressed : Bool) (ts : ℕ) (n a aad ct len : Bytes)
    → make_aad t (flags_of compressed) ts n a ≡ ok aad
    → cipher.construct key ≡ ok tt
    → cipher.encrypt key a p aad ≡ ok ct
    → pack_uint 4 (length ct) ≡ ok len
    → seal cipher p key t compressed ts n a ≡ ok (aad ++ (len ++ ct))
unfolding seal
seal-parts cipher p key t compressed ts n a aad ct len e1 e2 e3 e4 = rw (e1, e2, e3, e4)

-- With a key of 32 bytes, nonces of 16 and 12 bytes, a type of one byte, a timestamp of 64 bits
-- and a plaintext below 2 ^ 31 bytes, seal gives a packet, 64 bytes longer than the plaintext.
pub seal_total :
    (cipher : Cipher) (p key : Bytes) (t : ℕ) (compressed : Bool) (ts : ℕ) (n a : Bytes)
    → IsCipher cipher
    → length key ≡ 32
    → length n ≡ 16
    → length a ≡ 12
    → t < 256
    → ts < 2 ^ 64
    → length p < 2 ^ 31
    → (packet : Bytes) × (seal cipher p key t compressed ts n a ≡ ok packet)
      × (length packet ≡ length p + 64)
seal_total cipher p key t compressed ts n a laws k32 n16 a12 type stamp small =
    let (aad, e1) = make_aad_total t (flags_of compressed) ts n a (record {
      type_byte = type;
      flags_byte = flags_of-lt compressed;
      timestamp_u64 = stamp;
      nonce_size = n16;
      aead_nonce_size = a12;
    }) in
    let (ct, e2) = laws.encrypts key a p aad k32 a12 small in
    let l = laws.length-encrypt key a p aad ct e2 in
    let (len, e3) = pack_uint_total 4 (length ct) (omega (arith, l)) in
    let (l44, _) = parse_aad-make_aad t (flags_of compressed) ts n a aad e1 in
    (
      aad ++ (len ++ ct),
      seal-parts cipher p key t compressed ts n a aad ct len e1 (laws.constructs key k32) e2 e3,
      omega (arith, length-packet aad len ct l44 (length-pack_uint 4 (length ct) len e3), l),
    )

pub length-seal :
    (cipher : Cipher) (p key : Bytes) (t : ℕ) (compressed : Bool) (ts : ℕ) (n a packet : Bytes)
    → IsCipher cipher
    → seal cipher p key t compressed ts n a ≡ ok packet
    → length packet ≡ length p + 64
length-seal cipher p key t compressed ts n a packet laws h =
    let s = IsSealed-of_ok cipher p key t compressed ts n a packet h in
    let (l44, _) = parse_aad-make_aad t (flags_of compressed) ts n a s.aad s.packed in
    let l4 = length-pack_uint 4 (length s.ciphertext) s.len s.len_packed in
    let l = laws.length-encrypt key a p s.aad s.ciphertext s.encrypted in
    rw s.joined (omega (arith, length-packet s.aad s.len s.ciphertext l44 l4, l))
