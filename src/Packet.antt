-- ===== src/Packet.antt =====
-- relayx/crypto/aead.py: sealing and opening of the binary packet.
-- The cipher is a parameter. Random tokens and the clock are arguments.
pub mod Aead
pub mod Header
pub mod Opening
pub mod Sealing
mod Tests
use Prim.Native.Nat.{bit_and}
use relay_x.Prelude.{
  ℕ, ◌+◌, ◌-◌, Bool, ◌||◌, List, [], ◌∷◌, ◌++◌, ltb, ◌==◌, not, length, if◌then◌else◌, take, drop,
  Option, none, some,
}
use relay_x.Text.{Bytes}
use relay_x.Text.Equality.{text_eq}
use relay_x.Constants.{
  magic, version, reserved, flag_compressed, nonce_id_size, aead_nonce_size, aad_size, header_size,
}
use relay_x.Errors.{Result, ok, err, ◌>>=◌, ◌>>◌, raise_if, protocol_error, crypto_error}
use relay_x.Struct.{pack_uint, unpack_uint, pack_bytes, field_at}
use relay_x.Packet.Aead.{Cipher}

pub record OpenedPacket : Type 0 where
  pub type_id : ℕ
  pub compressed : Bool
  pub timestamp_ms : ℕ
  pub nonce_id : Bytes
  pub plaintext : Bytes

-- The eight values that `_parse_aad` returns.
pub record Aad : Type 0 where
  pub magic_bytes : Bytes
  pub version_id : ℕ
  pub type_id : ℕ
  pub flags : ℕ
  pub reserved_byte : ℕ
  pub timestamp_ms : ℕ
  pub nonce_id : Bytes
  pub aead_nonce : Bytes

-- _aad: struct.pack("!4sBBBBQ16s12s", ...)
unfoldable pub make_aad : ℕ → ℕ → ℕ → Bytes → Bytes → Result Bytes
make_aad type_id flags timestamp_ms nonce_id aead_nonce = do
  raise_if (not (length nonce_id == nonce_id_size) || not (length aead_nonce == aead_nonce_size))
      protocol_error
  v ← pack_uint 1 version
  t ← pack_uint 1 type_id
  f ← pack_uint 1 flags
  r ← pack_uint 1 reserved
  ts ← pack_uint 8 timestamp_ms
  ok (
      pack_bytes 4 magic
      ++ (v ++ (t ++ (f ++ (r ++ (ts ++ (pack_bytes 16 nonce_id ++ pack_bytes 12 aead_nonce)))))))

-- _parse_aad
unfoldable pub parse_aad : Bytes → Result Aad
parse_aad aad =
    if not (length aad == aad_size)
    then err protocol_error
    else ok (record {
      magic_bytes = field_at 0 4 aad;
      version_id = unpack_uint (field_at 4 1 aad);
      type_id = unpack_uint (field_at 5 1 aad);
      flags = unpack_uint (field_at 6 1 aad);
      reserved_byte = unpack_uint (field_at 7 1 aad);
      timestamp_ms = unpack_uint (field_at 8 8 aad);
      nonce_id = field_at 16 16 aad;
      aead_nonce = field_at 32 12 aad;
    })

-- flags & ~ALLOWED_FLAGS, on the byte that the header holds
abbrev has_unknown_flags : ℕ → Bool
has_unknown_flags flags = not (bit_and flags (255 - flag_compressed) == 0)

-- bool(flags & FLAG_COMPRESSED)
abbrev is_compressed : ℕ → Bool
is_compressed flags = not (bit_and flags flag_compressed == 0)

-- The condition under which open_packet refuses a header.
unfoldable pub is_invalid_header : Aad → Bool
is_invalid_header h =
    not (text_eq h.magic_bytes magic)
    || (not (h.version_id == version)
        || (not (h.type_id == 1 || (h.type_id == 2 || h.type_id == 3))
            || (has_unknown_flags h.flags || not (h.reserved_byte == reserved))))

module _ (cipher : Cipher) where
  open cipher use {construct, encrypt, decrypt}

  unfoldable pub seal : Bytes → Bytes → ℕ → Bool → ℕ → Bytes → Bytes → Result Bytes
  seal plaintext key type_id compressed timestamp_ms nonce_id aead_nonce = do
    let flags = if compressed then flag_compressed else 0
    aad ← make_aad type_id flags timestamp_ms nonce_id aead_nonce
    construct key
    ciphertext ← encrypt key aead_nonce plaintext aad
    len ← pack_uint 4 (length ciphertext)
    ok (aad ++ (len ++ ciphertext))

  -- `except InvalidTag`
  unfoldable pub decrypt_or_raise : Bytes → Bytes → Bytes → Bytes → Result Bytes
  decrypt_or_raise key aead_nonce ciphertext aad = elim (decrypt key aead_nonce ciphertext aad) [
    | none ↦ err crypto_error
    | some plaintext ↦ ok plaintext
  ]

  unfoldable pub open_packet : Bytes → Bytes → ℕ → Result OpenedPacket
  open_packet packet key max_ciphertext_bytes = do
    raise_if (ltb (length packet) header_size) protocol_error
    let aad = take aad_size packet
    h ← parse_aad aad
    raise_if (is_invalid_header h) protocol_error
    let ciphertext_len = unpack_uint (field_at aad_size (header_size - aad_size) packet)
    raise_if (ciphertext_len == 0 || ltb max_ciphertext_bytes ciphertext_len) protocol_error
    let ciphertext = drop header_size packet
    raise_if (not (length ciphertext == ciphertext_len)) protocol_error
    construct key
    plaintext ← decrypt_or_raise key h.aead_nonce ciphertext aad
    ok (record {
      type_id = h.type_id;
      compressed = is_compressed h.flags;
      timestamp_ms = h.timestamp_ms;
      nonce_id = h.nonce_id;
      plaintext = plaintext;
    })
