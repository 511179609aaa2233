-- ===== src/Replay/Tests.antt =====
-- The replay cache at concrete packets.
use relay_x.Prelude.{◌≡◌, ◌↔◌, refl, [], ◌∷◌, arith, replicate}
use relay_x.Text.{Bytes}
use relay_x.Text.Equality.{text_eq}
use relay_x.Errors.{ok, err, packet_expired, replay_detected}
use relay_x.Replay.{
  ReplayCache, new_cache, check_and_store, check, purge, delete_all, delete, store, expired_nonces,
}
use relay_x.Replay.Window.{IsFresh, check_and_store-accepts_iff}
use relay_x.Replay.Bounds.{IsValid, new_cache-IsValid, check_and_store-IsValid}
use relay_x.Replay.History.{Call, verdict, verdicts, spec_verdicts, verdicts-refines-history}
use relay_x.Samples.{nonce}

abbrev other_nonce : Bytes
other_nonce = replicate 16 5

abbrev empty : ReplayCache
empty = new_cache 60 10 5

abbrev first : Call
first = record { nonce = nonce; timestamp = 1000; now = 2000 }

abbrev second : Call
second = record { nonce = other_nonce; timestamp = 2500; now = 3000 }

abbrev again : Call
again = record { nonce = nonce; timestamp = 1000; now = 4000 }

accepted : verdict empty first ≡ ok tt
unfolding check_and_store check purge delete_all expired_nonces
accepted = refl

runs : verdicts empty (first ∷ second ∷ again ∷ []) ≡ ok tt ∷ ok tt ∷ err replay_detected ∷ []
unfolding verdicts check_and_store check purge delete_all expired_nonces store text_eq
runs = refl

verdicts-refines-history_example :
    verdicts empty (first ∷ second ∷ again ∷ [])
    ≡ spec_verdicts 60000 5000 10 [] (first ∷ second ∷ again ∷ [])
verdicts-refines-history_example =
    verdicts-refines-history 60 10 5 (first ∷ second ∷ again ∷ [])
      (omega arith, (omega arith, (omega arith, tt)))

-- One packet inside the window and one outside.
abbrev filled : ReplayCache
filled = record empty { seen = (other_nonce, 500) ∷ (nonce, 40000) ∷ [] }

check_and_store-accepts_iff_example :
    ((check_and_store filled other_nonce 70000 70500).0 ≡ ok tt)
    ↔ IsFresh filled other_nonce 70000 70500
unfolding text_eq
check_and_store-accepts_iff_example =
    check_and_store-accepts_iff filled other_nonce 70000 70500 (refl, (refl, tt))

expired : (check_and_store filled nonce 10 70500).0 ≡ err packet_expired
unfolding check_and_store check purge delete_all delete expired_nonces text_eq
expired = refl

check_and_store-IsValid_example : IsValid (check_and_store empty nonce 1000 2000).1
check_and_store-IsValid_example =
    check_and_store-IsValid empty nonce 1000 2000 (new_cache-IsValid 60 10 5)
