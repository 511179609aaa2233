-- ===== src/Pipeline/Roundtrip.antt =====
-- A message that is encoded is decoded as the same message.
use relay_x.Prelude.{ℕ, ◌+◌, ◌≤◌, ◌≡◌, refl, ◌∙◌, Bool, length, Option, some, none, arith}
use relay_x.Text.{Bytes}
use relay_x.Errors.{ok, >>=-eq-ok}
use relay_x.Replay.{ReplayCache, check_and_store}
use relay_x.Packet.{OpenedPacket, seal, open_packet}
use relay_x.Packet.Sealing.{IsMessageType, open_packet-seal, length-seal}
use relay_x.Models.{Message, request, response, error}
use relay_x.Codec.{dumps, message_type}
use relay_x.Codec.Roundtrip.{IsMade, loads-dumps}
use relay_x.Compression.{maybe_compress, maybe_decompress-maybe_compress}
use relay_x.Pipeline.{
  Libraries, IsLibraries, Limits, Draw, check_sizes, check_replay, encode_message, decode_payload,
  decode_opened, decode_message,
}

-- The parts of an encoding.
pub record IsEncoded (lib : Libraries) (message : Message) (key : Bytes) (enabled : Bool)
    (threshold : ℕ) (draw : Draw) (packet : Bytes) : Type 0 where
  pub serialized : Bytes
  pub payload : Bytes
  pub compressed : Bool
  pub type_id : ℕ
  pub dumped : dumps lib.unicode lib.msgpack message ≡ ok serialized
  pub compression : maybe_compress lib.zstd serialized enabled threshold ≡ ok (payload, compressed)
  pub typed : message_type message ≡ ok type_id
  pub sealed :
      seal lib.cipher payload key type_id compressed draw.timestamp_ms draw.nonce_id draw.aead_nonce
      ≡ ok packet

pub IsEncoded-of_ok :
    (lib : Libraries) (message : Message) (key : Bytes) (enabled : Bool) (threshold : ℕ)
    (draw : Draw) (packet : Bytes)
    → encode_message lib message key enabled threshold draw ≡ ok packet
    → IsEncoded lib message key enabled threshold draw packet
unfolding encode_message
IsEncoded-of_ok lib message key enabled threshold draw packet h =
    let (serialized, e1, h1) = >>=-eq-ok (dumps lib.unicode lib.msgpack message) _ h in
    let (c, e2, h2) = >>=-eq-ok (maybe_compress lib.zstd serialized enabled threshold) _ h1 in
    let (t, e3, h3) = >>=-eq-ok (message_type message) _ h2 in
    record {
      serialized = serialized;
      payload = c.0;
      compressed = c.1;
      type_id = t;
      dumped = e1;
      compression = e2;
      typed = e3;
      sealed = h3;
    }

-- The message is within the limits of the receiver.
pub record Fits (lib : Libraries) (limits : Limits) (message : Message) (packet : Bytes)
    : Type 0 where
  pub carrier : length packet ≤ limits.max_ciphertext_bytes + 48
  pub decompressed :
      (serialized : Bytes)
      → dumps lib.unicode lib.msgpack message ≡ ok serialized
      → length serialized ≤ limits.max_decompressed_bytes
  pub sizes : check_sizes limits message ≡ ok tt

-- The packet that decoding opens.
abbrev pub packet_of : (payload : Bytes) → ℕ → Bool → Draw → OpenedPacket
packet_of payload t compressed draw = record {
  type_id = t;
  compressed = compressed;
  timestamp_ms = draw.timestamp_ms;
  nonce_id = draw.nonce_id;
  plaintext = payload;
}

message_type-IsMessageType :
    (message : Message) (t : ℕ) → message_type message ≡ ok t → IsMessageType t
unfolding message_type
message_type-IsMessageType (request r) t h = ground arith
message_type-IsMessageType (response r) t h = ground arith
message_type-IsMessageType (error e) t h = ground arith

-- An encoded message, whatever its kind, is opened to its payload.
pub open_packet-encode :
    (lib : Libraries) (message : Message) (key : Bytes) (enabled : Bool) (threshold : ℕ)
    (draw : Draw) (packet : Bytes) (max : ℕ)
    → IsLibraries lib
    → length packet ≤ max + 48
    → (s : IsEncoded lib message key enabled threshold draw packet)
    → open_packet lib.cipher packet key max ≡ ok (packet_of s.payload s.type_id s.compressed draw)
open_packet-encode lib message key enabled threshold draw packet max laws fits s =
    open_packet-seal lib.cipher s.payload key s.type_id s.compressed draw.timestamp_ms draw.nonce_id
      draw.aead_nonce packet max laws.cipher_laws
      (message_type-IsMessageType message s.type_id s.typed)
      (omega (
        arith,
        fits,
        length-seal lib.cipher s.payload key s.type_id s.compressed draw.timestamp_ms draw.nonce_id
            draw.aead_nonce packet laws.cipher_laws s.sealed,
      ))
      s.sealed

-- The replay cache, if there is one, accepts the packet.
abbrev pub Admits : Option ReplayCache → Draw → ℕ → Type 0
Admits none draw now = Unit
Admits (some c) draw now = (check_and_store c draw.nonce_id draw.timestamp_ms now).0 ≡ ok tt

pub admitted :
    (cache : Option ReplayCache) (payload : Bytes) (t : ℕ) (compressed : Bool) (draw : Draw)
    (now : ℕ)
    → Admits cache draw now
    → (check_replay cache (packet_of payload t compressed draw) now).0 ≡ ok tt
unfolding check_replay
admitted none payload t compressed draw now h = refl
admitted (some c) payload t compressed draw now h = h

pub decode_opened-ok :
    (lib : Libraries) (limits : Limits) (cache : Option ReplayCache) (opened : OpenedPacket)
    (now : ℕ)
    → (check_replay cache opened now).0 ≡ ok tt
    → (decode_opened lib limits cache opened now).0 ≡ decode_payload lib limits opened
unfolding decode_opened
decode_opened-ok lib limits cache opened now h = rw h

decode_payload-encode :
    (lib : Libraries) (limits : Limits) (message : Message) (key : Bytes) (enabled : Bool)
    (threshold : ℕ) (draw : Draw) (packet : Bytes)
    → IsLibraries lib
    → IsMade lib.unicode message
    → Fits lib limits message packet
    → (s : IsEncoded lib message key enabled threshold draw packet)
    → decode_payload lib limits (packet_of s.payload s.type_id s.compressed draw) ≡ ok message
unfolding decode_payload
decode_payload-encode lib limits message key enabled threshold draw packet laws made fits s = rw (
  maybe_decompress-maybe_compress lib.zstd s.serialized s.payload enabled s.compressed threshold
      limits.max_decompressed_bytes laws.zstd_laws (fits.decompressed s.serialized s.dumped)
      s.compression,
  loads-dumps lib.unicode lib.msgpack message s.type_id s.serialized laws.msgpack_laws made s.typed
      s.dumped,
  fits.sizes,
)

-- A request or response that encode_message encoded, compressed or not, is decoded as the same
-- message by the holder of the key, where the packet is within the receiver's limits and its
-- replay cache accepts the drawn nonce and timestamp.
pub decode-encode :
    (lib : Libraries) (limits : Limits) (message : Message) (key : Bytes) (enabled : Bool)
    (threshold : ℕ) (draw : Draw) (packet : Bytes) (cache : Option ReplayCache) (now : ℕ)
    → IsLibraries lib
    → IsMade lib.unicode message
    → encode_message lib message key enabled threshold draw ≡ ok packet
    → Fits lib limits message packet
    → Admits cache draw now
    → (decode_message lib packet key cache limits now).0 ≡ ok message
unfolding decode_message
decode-encode lib limits message key enabled threshold draw packet cache now laws made h fits
      fresh =
    let s = IsEncoded-of_ok lib message key enabled threshold draw packet h in
    rw
      (
        open_packet-encode lib message key enabled threshold draw packet limits.max_ciphertext_bytes
            laws fits.carrier s,
        decode_message,
      )
      (decode_opened-ok lib limits cache (packet_of s.payload s.type_id s.compressed draw) now
          (admitted cache s.payload s.type_id s.compressed draw now fresh)
        ∙ decode_payload-encode lib limits message key enabled threshold draw packet laws made fits
            s)
