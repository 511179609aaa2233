-- ===== src/Pipeline.antt =====
-- relayx/pipeline.py: a message to a packet and back.
pub mod Roundtrip
pub mod Authentic
pub mod Once
pub mod ErrorMessages
mod Tests
use relay_x.Prelude.{ℕ, Bool, true, false, ltb, length, Option, some, none, ◌≡◌}
use relay_x.Text.{Bytes}
use relay_x.Text.Unicode.{Unicode}
use relay_x.Errors.{Result, ok, err, ◌>>=◌, ◌>>◌, raise_if, request_too_large, response_too_large}
use relay_x.Replay.{ReplayCache, check_and_store}
use relay_x.Packet.{OpenedPacket, seal, open_packet}
use relay_x.Packet.Aead.{Cipher, IsCipher}
use relay_x.Models.{Message, request, response, error}
use relay_x.Codec.{Msgpack, IsMsgpack, dumps, loads, message_type}
use relay_x.Compression.{Zstd, IsZstd, maybe_compress, maybe_decompress}

-- The code outside the repository that packets pass through.
pub record Libraries : Type 0 where
  pub unicode : Unicode
  pub cipher : Cipher
  pub msgpack : Msgpack
  pub zstd : Zstd

pub record IsLibraries (lib : Libraries) : Type 0 where
  pub cipher_laws : IsCipher lib.cipher
  pub msgpack_laws : IsMsgpack lib.msgpack
  pub zstd_laws : IsZstd lib.zstd

-- The limits that are arguments of decode_message.
pub record Limits : Type 0 where
  pub max_ciphertext_bytes : ℕ
  pub max_decompressed_bytes : ℕ
  pub max_request_body_bytes : ℕ
  pub max_response_body_bytes : ℕ

-- What `seal` draws: the instant, the nonce id and the AEAD nonce.
pub record Draw : Type 0 where
  pub timestamp_ms : ℕ
  pub nonce_id : Bytes
  pub aead_nonce : Bytes

-- The size checks at the end of decode_message.
unfoldable pub check_sizes : Limits → Message → Result (Unit {0})
check_sizes limits (request r) =
    raise_if (ltb limits.max_request_body_bytes (length r.body)) request_too_large
check_sizes limits (response r) =
    raise_if (ltb limits.max_response_body_bytes (length r.body)) response_too_large
check_sizes limits (error e) = ok tt

-- if replay_cache is not None: replay_cache.check_and_store(...)
unfoldable pub check_replay :
    Option ReplayCache → OpenedPacket → ℕ → Result (Unit {0}) × Option ReplayCache
check_replay none opened now_ms = (ok tt, none)
check_replay (some cache) opened now_ms =
    let (r, cache') = check_and_store cache opened.nonce_id opened.timestamp_ms now_ms in
    (r, some cache')

module _ (lib : Libraries) where
  unfoldable pub encode_message : Message → Bytes → Bool → ℕ → Draw → Result Bytes
  encode_message message key compression_enabled compression_threshold draw = do
    serialized ← dumps lib.unicode lib.msgpack message
    compression ← maybe_compress lib.zstd serialized compression_enabled compression_threshold
    type_id ← message_type message
    seal lib.cipher compression.0 key type_id compression.1 draw.timestamp_ms draw.nonce_id
        draw.aead_nonce

  -- decode_message behind the replay check
  unfoldable pub decode_payload : Limits → OpenedPacket → Result Message
  decode_payload limits opened = do
    serialized ←
        maybe_decompress lib.zstd opened.plaintext opened.compressed limits.max_decompressed_bytes
    message ← loads lib.unicode lib.msgpack serialized (some opened.type_id)
    check_sizes limits message
    ok message

  -- decode_message behind open_packet
  unfoldable pub decode_opened :
      Limits → Option ReplayCache → OpenedPacket → ℕ → Result Message × Option ReplayCache
  decode_opened limits cache opened now_ms =
      let (r, cache') = check_replay cache opened now_ms in
      (r >>= λ _. decode_payload limits opened, cache')

  abbrev pub continue :
      Limits → Option ReplayCache → ℕ → Result OpenedPacket → Result Message × Option ReplayCache
  continue limits cache now_ms (err e) = (err e, cache)
  continue limits cache now_ms (ok opened) = decode_opened limits cache opened now_ms

  -- The message, and the cache that the call leaves. `now_ms` is the clock of the replay check.
  unfoldable pub decode_message :
      Bytes → Bytes → Option ReplayCache → Limits → ℕ → Result Message × Option ReplayCache
  decode_message packet key cache limits now_ms =
      continue limits cache now_ms (open_packet lib.cipher packet key limits.max_ciphertext_bytes)
