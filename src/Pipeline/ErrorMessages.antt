-- ===== src/Pipeline/ErrorMessages.antt =====
-- No receiver can read an error message.
use relay_x.Prelude.{ℕ, ◌≡◌, ◌∙◌, Bool, Option, some}
use relay_x.Text.{Bytes}
use relay_x.Errors.{ok, err, serialization_error}
use relay_x.Replay.{ReplayCache}
use relay_x.Models.{RelayError, error}
use relay_x.Codec.ErrorMessages.{loads-dumps_error}
use relay_x.Compression.{maybe_decompress-maybe_compress}
use relay_x.Pipeline.{
  Libraries, IsLibraries, Limits, Draw, encode_message, decode_payload, decode_message,
}
use relay_x.Pipeline.Roundtrip.{
  IsEncoded, IsEncoded-of_ok, Fits, Admits, admitted, packet_of, open_packet-encode,
  decode_opened-ok,
}

decode_payload-error :
    (lib : Libraries) (limits : Limits) (e : RelayError) (key : Bytes) (enabled : Bool)
    (threshold : ℕ) (draw : Draw) (packet : Bytes)
    → IsLibraries lib
    → Fits lib limits (error e) packet
    → (s : IsEncoded lib (error e) key enabled threshold draw packet)
    → decode_payload lib limits (packet_of s.payload s.type_id s.compressed draw)
      ≡ err serialization_error
unfolding decode_payload
decode_payload-error lib limits e key enabled threshold draw packet laws fits s = rw (
  maybe_decompress-maybe_compress lib.zstd s.serialized s.payload enabled s.compressed threshold
      limits.max_decompressed_bytes laws.zstd_laws (fits.decompressed s.serialized s.dumped)
      s.compression,
  loads-dumps_error lib.unicode lib.msgpack e s.serialized (some s.type_id) laws.msgpack_laws
      s.dumped,
)

-- An error message that was encoded, whatever it says, is never decoded: the holder of the key,
-- whose limits and replay cache admit the packet, gets a SerializationError in its place.
pub decode-encode_error :
    (lib : Libraries) (limits : Limits) (e : RelayError) (key : Bytes) (enabled : Bool)
    (threshold : ℕ) (draw : Draw) (packet : Bytes) (cache : Option ReplayCache) (now : ℕ)
    → IsLibraries lib
    → encode_message lib (error e) key enabled threshold draw ≡ ok packet
    → Fits lib limits (error e) packet
    → Admits cache draw now
    → (decode_message lib packet key cache limits now).0 ≡ err serialization_error
unfolding decode_message
decode-encode_error lib limits e key enabled threshold draw packet cache now laws h fits fresh =
    let s = IsEncoded-of_ok lib (error e) key enabled threshold draw packet h in
    rw
      (
        open_packet-encode lib (error e) key enabled threshold draw packet
            limits.max_ciphertext_bytes laws fits.carrier s,
        decode_message,
      )
      (decode_opened-ok lib limits cache (packet_of s.payload s.type_id s.compressed draw) now
          (admitted cache s.payload s.type_id s.compressed draw now fresh)
        ∙ decode_payload-error lib limits e key enabled threshold draw packet laws fits s)
