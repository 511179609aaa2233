-- ===== src/Pipeline/Tests.antt =====
-- The pipeline at concrete messages.
use relay_x.Prelude.{◌≡◌, ◌≢◌, ◌⊎◌, refl, [], ◌∷◌, true, some, arith}
use relay_x.Errors.{Exn, ok, err}
use relay_x.Struct.{IsBytes}
use relay_x.Replay.{
  ReplayCache, new_cache, check_and_store, check, purge, delete_all, expired_nonces,
}
use relay_x.Replay.Bounds.{new_cache-IsValid}
use relay_x.Packet.{OpenedPacket}
use relay_x.Codec.{message_type}
use relay_x.Codec.Strict.{IsSound}
use relay_x.Models.{request}
use relay_x.Pipeline.{decode_message, check_replay}
use relay_x.Pipeline.Roundtrip.{decode-encode, Admits}
use relay_x.Pipeline.Authentic.{decode_message-IsSound, decode_message-cache, IsAuthentic, IsWithin}
use relay_x.Pipeline.Once.{decoded_once, Delivery, cache_after_all}
use relay_x.Samples.{
  request-IsMade, encodes, request-Fits, IsBytes_of_all, unicode, libraries, libraries-IsLibraries,
  key, draw, limits, sample_request, request_packet, error_packet,
}

abbrev cache : ReplayCache
cache = new_cache 60 10 5

admits : Admits (some cache) draw 2000
unfolding check_and_store check purge delete_all expired_nonces
admits = refl

decode-encode_example :
    (decode_message libraries request_packet key (some cache) limits 2000).0
    ≡ ok (request sample_request)
decode-encode_example =
    decode-encode libraries limits (request sample_request) key true 0 draw request_packet
      (some cache) 2000 libraries-IsLibraries request-IsMade encodes request-Fits admits

packet_bytes : IsBytes request_packet
packet_bytes = IsBytes_of_all request_packet refl

decode_message-IsSound_example :
    (o : OpenedPacket) × IsAuthentic libraries limits
      (some cache)
      2000
      request_packet
      key
      libraries-IsLibraries
      packet_bytes
      o
    × ((check_replay (some cache) o 2000).0 ≡ ok tt)
    × IsSound unicode (request sample_request)
    × (message_type (request sample_request) ≡ ok o.type_id)
    × IsWithin limits (request sample_request)
decode_message-IsSound_example =
    decode_message-IsSound libraries limits (some cache) 2000 request_packet key
      libraries-IsLibraries packet_bytes (request sample_request) decode-encode_example

decode_message-cache_example :
    ((e : Exn) × (decode_message libraries request_packet key (some cache) limits 2000
        ≡ (err e, some cache)))
    ⊎ ((o : OpenedPacket) × IsAuthentic libraries limits
          (some cache)
          2000
          request_packet
          key
          libraries-IsLibraries
          packet_bytes
          o
        × ((decode_message libraries request_packet key (some cache) limits 2000).1
            ≡ (check_replay (some cache) o 2000).1))
decode_message-cache_example =
    decode_message-cache libraries limits (some cache) 2000 request_packet key libraries-IsLibraries
      packet_bytes

abbrev first : Delivery
first = record { packet = request_packet; now = 2000 }

abbrev again : Delivery
again = record { packet = request_packet; now = 3000 }

abbrev between : Delivery
between = record { packet = error_packet; now = 2500 }

decoded_once_example :
    (decode_message libraries request_packet key
      (cache_after_all libraries key limits (some cache) (first ∷ between ∷ []))
      limits
      3000).0
    ≢ ok (request sample_request)
decoded_once_example =
    decoded_once libraries key limits cache first again (between ∷ []) (request sample_request)
      (request sample_request) (new_cache-IsValid 60 10 5) decode-encode_example refl
      (omega arith, (omega arith, tt))
