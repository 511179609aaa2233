-- ===== src/Packet/Opening.antt =====
-- What `open_packet` accepts: exactly what `seal` makes.
use relay_x.Prelude.{
  ℕ, ◌+◌, ◌≤◌, ◌<◌, ◌≡◌, refl, sym, ap, ◌∙◌, Bool, true, false, ◌||◌, ◌++◌, ltb, ◌==◌, not, length,
  take, drop, arith, some, ||-eq-false, length-take, length-drop, take-append-drop, drop-drop,
  All-take, All-drop, ltb-eq-false_iff, ==_iff, all_below, all_below_sound,
}
use mathlib.Core.Path.{subst}
use relay_x.Text.{Bytes}
use relay_x.Text.Equality.{text_eq, eq_of_text_eq}
use relay_x.Constants.{magic}
use relay_x.Errors.{ok, >>=-eq-ok, guard-eq-ok, ok-injective, protocol_error}
use relay_x.Struct.{IsBytes, pack_uint, unpack_uint, field_at}
use relay_x.Struct.Laws.{pack_uint-unpack_uint_of_length}
use relay_x.Packet.{
  Aad, OpenedPacket, parse_aad, seal, open_packet, decrypt_or_raise, is_invalid_header,
  is_compressed, has_unknown_flags,
}
use relay_x.Packet.Aead.{Cipher, IsCipher}
use relay_x.Packet.Header.{make_aad-parse_aad, IsPackable-of_ok}
use relay_x.Packet.Sealing.{flags_of, IsMessageType, opened, seal-parts}

-- Every check that an opened packet has passed.
record IsOpened (cipher : Cipher) (packet key : Bytes) (max : ℕ) (o : OpenedPacket) : Type 0 where
  header : Aad
  long : 48 ≤ length packet
  parsed : parse_aad (take 44 packet) ≡ ok header
  valid : is_invalid_header header ≡ false
  some_ciphertext : 0 < length (drop 48 packet)
  within : length (drop 48 packet) ≤ max
  announced : unpack_uint (field_at 44 4 packet) ≡ length (drop 48 packet)
  key_ok : cipher.construct key ≡ ok tt
  decrypted :
      cipher.decrypt key header.aead_nonce (drop 48 packet) (take 44 packet) ≡ some o.plaintext
  result : o ≡ opened header o.plaintext

decrypt_or_raise-eq-ok :
    (cipher : Cipher) (key a ct aad p : Bytes)
    → decrypt_or_raise cipher key a ct aad ≡ ok p
    → cipher.decrypt key a ct aad ≡ some p
unfolding decrypt_or_raise
decrypt_or_raise-eq-ok cipher key a ct aad p h = ground arith

not-eq-false : {b : Bool} → not b ≡ false → b ≡ true
not-eq-false {b} h = ground arith

positive : (l n : ℕ) → (n == 0) ≡ false → not (l == n) ≡ false → 0 < l
positive l n h k = ground arith

within_lem : (l n max : ℕ) → ltb max n ≡ false → not (l == n) ≡ false → l ≤ max
within_lem l n max h k = ground arith

module _ (cipher : Cipher) (packet key : Bytes) (max : ℕ) (o : OpenedPacket) where
  IsOpened-of_ok : open_packet cipher packet key max ≡ ok o → IsOpened cipher packet key max o
  unfolding open_packet
  IsOpened-of_ok h =
      let (long, h1) = guard-eq-ok (ltb (length packet) 48) protocol_error _ h in
      let (hd, e2, h2) = >>=-eq-ok (parse_aad (take 44 packet)) _ h1 in
      let (valid, h3) = guard-eq-ok (is_invalid_header hd) protocol_error _ h2 in
      let n : ℕ = unpack_uint (field_at 44 4 packet) in
      let (bounded, h4) = guard-eq-ok (n == 0 || ltb max n) protocol_error _ h3 in
      let (nonzero, within) = ||-eq-false (n == 0) (ltb max n) bounded in
      let (same, h5) = guard-eq-ok (not (length (drop 48 packet) == n)) protocol_error _ h4 in
      let (u6, e6, h6) = >>=-eq-ok (cipher.construct key) _ h5 in
      let (p, e7, h7) =
        >>=-eq-ok (decrypt_or_raise cipher key hd.aead_nonce (drop 48 packet) (take 44 packet))
          (λ q. ok (opened hd q)) h6 in
      let r = sym (ok-injective h7) in
      let d =
        decrypt_or_raise-eq-ok cipher key hd.aead_nonce (drop 48 packet) (take 44 packet) p e7 in
      record {
        header = hd;
        long = (ltb-eq-false_iff _ _).0 long;
        parsed = e2;
        valid = valid;
        some_ciphertext = positive _ n nonzero same;
        within = within_lem _ n max within same;
        announced = sym ((==_iff _ n).0 (not-eq-false same));
        key_ok = e6;
        decrypted = d ∙ ap (λ (x : OpenedPacket). some x.plaintext) (sym r);
        result = r ∙ ap (λ (x : OpenedPacket). opened hd x.plaintext) (sym r);
      }

abbrev flags_agree : ℕ → Bool
flags_agree f = has_unknown_flags f || f == flags_of (is_compressed f)

flags_table : all_below 256 flags_agree ≡ true
unfolding all_below
flags_table = refl

flags_known : (f : ℕ) → f < 256 → has_unknown_flags f ≡ false → f ≡ flags_of (is_compressed f)
flags_known f lt h =
    let e = all_below_sound 256 flags_agree f lt flags_table in
    (==_iff f (flags_of (is_compressed f))).0 (right_of_or _ _ e h)
  where
    right_of_or : (a b : Bool) → (a || b) ≡ true → a ≡ false → b ≡ true
    right_of_or a b e h = ground arith

-- What a header that open_packet does not refuse holds.
record IsHeader (h : Aad) : Type 0 where
  magic_ok : h.magic_bytes ≡ magic
  version_ok : h.version_id ≡ 1
  type_ok : IsMessageType h.type_id
  flags_ok : has_unknown_flags h.flags ≡ false
  reserved_ok : h.reserved_byte ≡ 0

IsHeader-of_valid : (h : Aad) → is_invalid_header h ≡ false → IsHeader h
unfolding is_invalid_header
IsHeader-of_valid h v =
    let (m, v1) = ||-eq-false (not (text_eq h.magic_bytes magic)) _ v in
    let (w, v2) = ||-eq-false (not (h.version_id == 1)) _ v1 in
    let (t, v3) = ||-eq-false (not (h.type_id == 1 || (h.type_id == 2 || h.type_id == 3))) _ v2 in
    let (f, z) = ||-eq-false (has_unknown_flags h.flags) (not (h.reserved_byte == 0)) v3 in
    record {
      magic_ok = eq_of_text_eq h.magic_bytes magic (not-eq-false m);
      version_ok = (==_iff h.version_id 1).0 (not-eq-false w);
      type_ok = one_of_three h.type_id (not-eq-false t);
      flags_ok = f;
      reserved_ok = (==_iff h.reserved_byte 0).0 (not-eq-false z);
    }
  where
    one_of_three : (t : ℕ) → (t == 1 || (t == 2 || t == 3)) ≡ true → IsMessageType t
    one_of_three t h = ground arith

rejoin : (packet : Bytes) → take 44 packet ++ (field_at 44 4 packet ++ drop 48 packet) ≡ packet
rejoin packet =
    rw (← drop-drop 4 44 packet)
      (rw (take-append-drop 4 (drop 44 packet)) (take-append-drop 44 packet))

-- A packet of bytes that open_packet accepts is, byte for byte, what seal makes of the plaintext,
-- type, compression flag, timestamp and nonce id that it returns, with some AEAD nonce; the type
-- is one of the three, and the ciphertext is within the limit.
pub open_packet-only-sealed :
    (cipher : Cipher) (packet key : Bytes) (max : ℕ) (o : OpenedPacket)
    → IsCipher cipher
    → IsBytes packet
    → open_packet cipher packet key max ≡ ok o
    → (a : Bytes) × (seal cipher o.plaintext key o.type_id o.compressed o.timestamp_ms o.nonce_id a
        ≡ ok packet)
      × IsMessageType o.type_id
      × (length o.plaintext + 16 ≤ max)
open_packet-only-sealed cipher packet key max o laws bytes h =
    let s = IsOpened-of_ok cipher packet key max o h in
    let hd = s.header in
    let v = IsHeader-of_valid hd s.valid in
    let aad_bytes = All-take (λ b. b < 256) 44 packet bytes in
    let e1 =
      make_aad-parse_aad (take 44 packet) hd aad_bytes s.parsed v.magic_ok v.version_ok
        v.reserved_ok in
    let p = IsPackable-of_ok hd.type_id hd.flags hd.timestamp_ms hd.nonce_id hd.aead_nonce _ e1 in
    let f = flags_known hd.flags p.flags_byte v.flags_ok in
    let ct = drop 48 packet in
    let e2 = laws.encrypt-decrypt key hd.aead_nonce o.plaintext (take 44 packet) ct s.decrypted in
    let l = laws.length-encrypt key hd.aead_nonce o.plaintext (take 44 packet) ct e2 in
    let l4 : length (field_at 44 4 packet) ≡ 4 =
      omega (arith, length-take 4 (drop 44 packet), length-drop 44 packet, s.long) in
    let len_bytes =
      All-take (λ b. b < 256) 4 (drop 44 packet) (All-drop (λ b. b < 256) 44 packet bytes) in
    let e3 : pack_uint 4 (length ct) ≡ ok (field_at 44 4 packet) =
      ap (pack_uint 4) (sym s.announced)
      ∙ pack_uint-unpack_uint_of_length 4 (field_at 44 4 packet) l4 len_bytes in
    let sealed =
      seal-parts cipher o.plaintext key hd.type_id (is_compressed hd.flags) hd.timestamp_ms
        hd.nonce_id hd.aead_nonce (take 44 packet) ct (field_at 44 4 packet) (rw (← f) e1) s.key_ok
        e2 e3
      ∙ ap ok (rejoin packet) in
    (
      hd.aead_nonce,
      (λ i.
            let x : OpenedPacket = s.result i in
            seal cipher o.plaintext key x.type_id x.compressed x.timestamp_ms x.nonce_id
              hd.aead_nonce)
          ∙ sealed,
      subst IsMessageType (ap (λ (x : OpenedPacket). x.type_id) (sym s.result)) v.type_ok,
      omega (arith, l, s.within),
    )
