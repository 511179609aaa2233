-- ===== src/Pipeline/Authentic.antt =====
-- What decode_message accepts, and when it touches the replay cache.
use relay_x.Prelude.{ℕ, ◌≤◌, length, arith, ◌≡◌, refl, sym, ap, ◌∙◌, Option, some, inl, inr, ◌⊎◌}
use mathlib.Core.Path.{subst}
use relay_x.Text.{Bytes}
use relay_x.Errors.{Exn, Result, ok, err, >>=-eq-ok, ok-injective, Result-cases}
use relay_x.Replay.{ReplayCache}
use relay_x.Struct.{IsBytes}
use relay_x.Packet.{OpenedPacket, seal, open_packet}
use relay_x.Packet.Opening.{open_packet-only-sealed}
use relay_x.Models.{Message, request, response, error}
use relay_x.Codec.{loads, message_type}
use relay_x.Codec.Strict.{IsSound, loads-IsSound}
use relay_x.Compression.{maybe_decompress}
use relay_x.Pipeline.{
  Libraries, IsLibraries, Limits, check_sizes, check_replay, decode_payload, decode_opened,
  continue, decode_message,
}

-- The body of a request and of a response has at most as many bytes as the limits allow; an error
-- has no body.
abbrev pub IsWithin : Limits → Message → Type 0
IsWithin limits (request r) = length r.body ≤ limits.max_request_body_bytes
IsWithin limits (response r) = length r.body ≤ limits.max_response_body_bytes
IsWithin limits (error e) = Unit

check_sizes-IsWithin :
    (limits : Limits) (message : Message)
    → check_sizes limits message ≡ ok tt
    → IsWithin limits message
unfolding check_sizes
check_sizes-IsWithin limits (request r) h = ground (arith, h)
check_sizes-IsWithin limits (response r) h = ground (arith, h)
check_sizes-IsWithin limits (error e) h = tt

module _ (lib : Libraries) (limits : Limits) (cache : Option ReplayCache) (now : ℕ) where
  decode_opened-eq-ok :
      (o : OpenedPacket) (message : Message)
      → (decode_opened lib limits cache o now).0 ≡ ok message
      → ((check_replay cache o now).0 ≡ ok tt) × (decode_payload lib limits o ≡ ok message)
  unfolding decode_opened
  decode_opened-eq-ok o message h =
      let (x, e, k) = >>=-eq-ok (check_replay cache o now).0 (λ _. decode_payload lib limits o) h in
      (e, k)

  decode_payload-IsSound :
      (o : OpenedPacket) (message : Message)
      → decode_payload lib limits o ≡ ok message
      → IsSound lib.unicode message
        × (message_type message ≡ ok o.type_id)
        × IsWithin limits message
  unfolding decode_payload
  decode_payload-IsSound o message h =
      let (s, e1, h1) =
        >>=-eq-ok (maybe_decompress lib.zstd o.plaintext o.compressed limits.max_decompressed_bytes)
          _ h in
      let (m, e2, h2) = >>=-eq-ok (loads lib.unicode lib.msgpack s (some o.type_id)) _ h1 in
      let (x, e3, h3) = >>=-eq-ok (check_sizes limits m) _ h2 in
      let same = ok-injective h3 in
      let (sound, typed) = loads-IsSound lib.unicode lib.msgpack s o.type_id m e2 in
      (
        subst (IsSound lib.unicode) same sound,
        ap message_type (sym same) ∙ typed,
        subst (IsWithin limits) same (check_sizes-IsWithin limits m e3),
      )

  pub open-eq-ok_of_decode :
      (r : Result OpenedPacket) (message : Message)
      → (continue lib limits cache now r).0 ≡ ok message
      → (o : OpenedPacket) × (r ≡ ok o)
        × ((check_replay cache o now).0 ≡ ok tt)
        × (decode_payload lib limits o ≡ ok message)
  open-eq-ok_of_decode (ok o) message h =
      let (e, k) = decode_opened-eq-ok o message h in (o, refl, e, k)
  open-eq-ok_of_decode (err e) message h = cc

  module _ (packet key : Bytes) (laws : IsLibraries lib) (bytes : IsBytes packet) where
    -- The packet is what `seal` makes of some plaintext under the key.
    pub record IsAuthentic (o : OpenedPacket) : Type 0 where
      pub aead_nonce : Bytes
      pub sealed :
          seal lib.cipher o.plaintext key o.type_id o.compressed o.timestamp_ms o.nonce_id
            aead_nonce
          ≡ ok packet

    authentic :
        (o : OpenedPacket)
        → open_packet lib.cipher packet key limits.max_ciphertext_bytes ≡ ok o
        → IsAuthentic o
    authentic o h =
        let (a, e, _, _) =
          open_packet-only-sealed lib.cipher packet key limits.max_ciphertext_bytes o
            laws.cipher_laws bytes h in
        record { aead_nonce = a; sealed = e }

    -- What decode_message returns of a packet of bytes was sealed under the key, was accepted by
    -- the replay cache, if there is one, is a message that its constructor validated, of the type
    -- in the packet's header, and has a body within the limit.
    pub decode_message-IsSound :
        (message : Message)
        → (decode_message lib packet key cache limits now).0 ≡ ok message
        → (o : OpenedPacket) × IsAuthentic o
          × ((check_replay cache o now).0 ≡ ok tt)
          × IsSound lib.unicode message
          × (message_type message ≡ ok o.type_id)
          × IsWithin limits message
    unfolding decode_message
    decode_message-IsSound message h =
        let (o, e, r, k) =
          open-eq-ok_of_decode (open_packet lib.cipher packet key limits.max_ciphertext_bytes)
            message h in
        let (sound, typed, sizes) = decode_payload-IsSound o message k in
        (o, authentic o e, r, sound, typed, sizes)

    -- A packet of bytes is either refused by decode_message, which leaves the replay cache as it
    -- was, or was sealed under the key, and the cache is then what its own replay check leaves.
    pub decode_message-cache :
        ((e : Exn) × (decode_message lib packet key cache limits now ≡ (err e, cache)))
        ⊎ ((o : OpenedPacket) × IsAuthentic o
            × ((decode_message lib packet key cache limits now).1 ≡ (check_replay cache o now).1))
    unfolding decode_message decode_opened
    decode_message-cache =
        elim (Result-cases (open_packet lib.cipher packet key limits.max_ciphertext_bytes)) [
          | inl (o, h) ↦ inr (o, authentic o h, rw (h, decode_message))
          | inr (e, h) ↦ inl (e, rw (h, decode_message))
        ]
