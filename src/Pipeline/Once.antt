-- ===== src/Pipeline/Once.antt =====
-- A packet is decoded at most once.
use relay_x.Prelude.{
  ℕ, ◌≤◌, ◌≡◌, ◌≢◌, refl, sym, ap, ◌∙◌, List, [], ◌∷◌, ◌++◌, Option, some, arith, inl, inr,
}
use mathlib.Core.Path.{subst}
use relay_x.Text.{Bytes}
use relay_x.Errors.{Result, ok, err, Result-cases, ok-injective}
use relay_x.Replay.{ReplayCache}
use relay_x.Replay.Bounds.{IsValid}
use relay_x.Replay.History.{Call, verdict, after, after_all, IsOrdered}
use relay_x.Replay.Once.{accepted_once}
use relay_x.Packet.{OpenedPacket, open_packet}
use relay_x.Models.{Message}
use relay_x.Pipeline.{Libraries, Limits, check_replay, decode_opened, decode_message}
use relay_x.Pipeline.Authentic.{open-eq-ok_of_decode}

-- A packet and the instant at which it is decoded.
pub record Delivery : Type 0 where
  pub packet : Bytes
  pub now : ℕ

abbrev pub InOrder : ℕ → List Delivery → Type 0
InOrder t [] = Unit
InOrder t (d ∷ ds) = (t ≤ d.now) × InOrder d.now ds

abbrev call_of : OpenedPacket → ℕ → Call
call_of o now = record { nonce = o.nonce_id; timestamp = o.timestamp_ms; now = now }

module _ (lib : Libraries) (key : Bytes) (limits : Limits) where
  -- The cache that a sequence of decodings leaves.
  unfoldable pub cache_after_all : Option ReplayCache → List Delivery → Option ReplayCache
  cache_after_all cache [] = cache
  cache_after_all cache (d ∷ ds) =
      cache_after_all (decode_message lib d.packet key cache limits d.now).1 ds

  abbrev opened : Delivery → Result OpenedPacket
  opened d = open_packet lib.cipher d.packet key limits.max_ciphertext_bytes

  abbrev prepend : Result OpenedPacket → ℕ → List Call → List Call
  prepend (ok o) now ks = call_of o now ∷ ks
  prepend (err e) now ks = ks

  -- The calls of check_and_store that the decodings make.
  calls : List Delivery → List Call
  calls [] = []
  calls (d ∷ ds) = prepend (opened d) d.now (calls ds)

  IsOrdered-weaken : (s t : ℕ) (ks : List Call) → s ≤ t → IsOrdered t ks → IsOrdered s ks
  IsOrdered-weaken s t [] le o = tt
  IsOrdered-weaken s t (k ∷ ks) le (h, o) = (omega (arith, le, h), o)

  calls-IsOrdered :
      (t : ℕ) (ds : List Delivery) (again : Delivery) (o : OpenedPacket)
      → InOrder t (ds ++ again ∷ [])
      → IsOrdered t (calls ds ++ call_of o again.now ∷ [])
  unfolding calls
  calls-IsOrdered t [] again o (h, _) = (h, tt)
  calls-IsOrdered t (d ∷ ds) again o (h, order) = elim (Result-cases (opened d)) [
    | inl (p, e) ↦ rw (e, calls) (h, calls-IsOrdered d.now ds again o order)
    | inr (x, e) ↦
        rw (e, calls)
          (IsOrdered-weaken t d.now (calls ds ++ call_of o again.now ∷ []) h
            (calls-IsOrdered d.now ds again o order))
  ]

  cache_after_all-calls :
      (c : ReplayCache) (ds : List Delivery)
      → cache_after_all (some c) ds ≡ some (after_all c (calls ds))
  unfolding cache_after_all after_all calls decode_message decode_opened check_replay
  cache_after_all-calls c [] = refl
  cache_after_all-calls c (d ∷ ds) = elim (Result-cases (opened d)) [
    | inl (p, e) ↦
        rw (e, decode_message, calls) (cache_after_all-calls (after c (call_of p d.now)) ds)
    | inr (x, e) ↦ rw (e, decode_message, calls) (cache_after_all-calls c ds)
  ]

  accepted_call :
      (c : ReplayCache) (d : Delivery) (message : Message)
      → (decode_message lib d.packet key (some c) limits d.now).0 ≡ ok message
      → (o : OpenedPacket) × (opened d ≡ ok o)
        × (verdict c (call_of o d.now) ≡ ok tt)
        × ((decode_message lib d.packet key (some c) limits d.now).1
            ≡ some (after c (call_of o d.now)))
  unfolding decode_message decode_opened check_replay
  accepted_call c d message h =
      let (o, e, r, _) = open-eq-ok_of_decode lib limits (some c) d.now (opened d) message h in
      (o, e, r, rw (e, decode_message))

  -- A packet that decode_message accepted with a valid replay cache is never accepted again: after
  -- any other deliveries, at instants that do not go back, decoding the same packet fails.
  pub decoded_once :
      (c : ReplayCache) (first again : Delivery) (ds : List Delivery) (message other : Message)
      → IsValid c
      → (decode_message lib first.packet key (some c) limits first.now).0 ≡ ok message
      → again.packet ≡ first.packet
      → InOrder first.now (ds ++ again ∷ [])
      → (decode_message lib again.packet key
          (cache_after_all (some c) (first ∷ ds))
          limits
          again.now).0
        ≢ ok other
  unfolding cache_after_all
  decoded_once c first again ds message other v h same order bad =
      let (o, e, accepted, next) = accepted_call c first message h in
      let c' = after_all (after c (call_of o first.now)) (calls ds) in
      let state : cache_after_all (decode_message lib first.packet key (some c) limits first.now).1
            ds
          ≡ some c' =
        ap (λ x. cache_after_all x ds) next
        ∙ cache_after_all-calls (after c (call_of o first.now)) ds in
      let (o', e', accepted', _) = accepted_call c' again other (
        subst (λ x. (decode_message lib again.packet key x limits again.now).0 ≡ ok other) state
          bad) in
      let so : o' ≡ o =
        ok-injective
          (sym e' ∙ ap (λ p. open_packet lib.cipher p key limits.max_ciphertext_bytes) same ∙ e) in
      accepted_once c (call_of o first.now) (call_of o' again.now) (calls ds) v accepted
        (calls-IsOrdered first.now ds again o' order) (ap (λ (x : OpenedPacket). x.nonce_id) so)
        (ap (λ (x : OpenedPacket). x.timestamp_ms) so) accepted'
