-- ===== src/Packet/Tests.antt =====
-- Packets at concrete values.
use relay_x.Prelude.{◌≤◌, ◌≡◌, inl, refl, [], ◌∷◌, length, arith, true, false, take}
use relay_x.Text.{Bytes}
use relay_x.Errors.{ok}
use relay_x.Struct.{IsBytes, little, pack_uint, pack_bytes}
use relay_x.Packet.{OpenedPacket, seal, open_packet, make_aad}
use relay_x.Packet.Sealing.{open_packet-seal, seal_total, IsMessageType}
use relay_x.Packet.Opening.{open_packet-only-sealed}
use relay_x.Samples.{
  IsBytes_of_all, cipher, cipher-IsCipher, key, nonce, aead_nonce, request_packet,
}

abbrev content : OpenedPacket
content = record {
  type_id = 1;
  compressed = true;
  timestamp_ms = 1000;
  nonce_id = nonce;
  plaintext = 1 ∷ [];
}

sealed : seal cipher (1 ∷ []) key 1 true 1000 nonce aead_nonce ≡ ok request_packet
unfolding seal make_aad pack_uint pack_bytes little
sealed = refl

open_packet-seal_example : open_packet cipher request_packet key 17 ≡ ok content
open_packet-seal_example =
    open_packet-seal cipher (1 ∷ []) key 1 true 1000 nonce aead_nonce request_packet 17
      cipher-IsCipher (inl refl) (omega arith) sealed

packet_bytes : IsBytes request_packet
packet_bytes = IsBytes_of_all request_packet refl

open_packet-only-sealed_example :
    (a : Bytes) × (seal cipher (1 ∷ []) key 1 true 1000 nonce a ≡ ok request_packet)
    × IsMessageType 1
    × (17 ≤ 17)
open_packet-only-sealed_example =
    open_packet-only-sealed cipher request_packet key 17 content cipher-IsCipher packet_bytes
      open_packet-seal_example

seal_total_example :
    (packet : Bytes) × (seal cipher (9 ∷ 8 ∷ []) key 2 false 5 nonce aead_nonce ≡ ok packet)
    × (length packet ≡ 66)
seal_total_example =
    seal_total cipher (9 ∷ 8 ∷ []) key 2 false 5 nonce aead_nonce cipher-IsCipher refl refl refl
      (omega arith) (omega arith) (omega arith)

abbrev header : Bytes
header = take 44 request_packet

packed : make_aad 1 1 1000 nonce aead_nonce ≡ ok header
unfolding make_aad pack_uint pack_bytes little
packed = refl
