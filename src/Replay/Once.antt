-- ===== src/Replay/Once.antt =====
-- No packet is accepted twice.
use relay_x.Prelude.{
  ℕ, ◌+◌, ◌≤◌, ◌<◌, ◌≡◌, ◌≢◌, true, List, [], ◌∷◌, ◌++◌, arith, filter, inl, inr, Bool-cases, Bool,
  ◌==◌, ◌&&◌, any, ◌⊎◌,
}
use relay_x.Text.{Bytes}
use relay_x.Text.Equality.{text_eq, text_eq_refl}
use relay_x.Errors.{Result-cases, ok}
use relay_x.Replay.{Seen, ReplayCache, contains}
use relay_x.Replay.Purge.{is_live}
use relay_x.Replay.Window.{live_entries, check_and_store-accepts_iff, seen-accepted, seen-rejected}
use relay_x.Replay.Bounds.{IsValid, check_and_store-IsValid}
use relay_x.Replay.History.{Call, verdict, after, after_all, IsOrdered, settings_kept}

abbrev is_entry : Bytes → ℕ → Bytes × ℕ → Bool
is_entry nonce ts e = text_eq e.0 nonce && e.1 == ts

abbrev holds : Bytes → ℕ → Seen → Bool
holds nonce ts = any (is_entry nonce ts)

holds-filter :
    (nonce : Bytes) (ts window now : ℕ) (m : Seen)
    → holds nonce ts m ≡ true
    → now ≤ ts + window
    → holds nonce ts (filter (is_live window now) m) ≡ true
holds-filter nonce ts window now [] h le = cc
holds-filter nonce ts window now (e ∷ m) h le = ground (arith, holds-filter nonce ts window now m)

holds-append_left :
    (nonce : Bytes) (ts : ℕ) (m n : Seen) → holds nonce ts m ≡ true → holds nonce ts (m ++ n) ≡ true
holds-append_left nonce ts [] n h = cc
holds-append_left nonce ts (e ∷ m) n h = ground (arith, holds-append_left nonce ts m n)

holds-append_self :
    (nonce : Bytes) (ts : ℕ) (m : Seen) → holds nonce ts (m ++ (nonce, ts) ∷ []) ≡ true
holds-append_self nonce ts [] = ground (arith, text_eq_refl nonce)
holds-append_self nonce ts (e ∷ m) = ground (arith, holds-append_self nonce ts m)

contains_of_holds :
    (nonce : Bytes) (ts : ℕ) (m : Seen) → holds nonce ts m ≡ true → contains nonce m ≡ true
contains_of_holds nonce ts [] h = cc
contains_of_holds nonce ts (e ∷ m) h = ground (arith, contains_of_holds nonce ts m)

-- From the instant `t` on, the packet is in the cache or outside the window.
abbrev Remembers : Bytes → ℕ → ReplayCache → ℕ → Type 0
Remembers nonce ts c t = (holds nonce ts c.seen ≡ true) ⊎ (ts + c.window_ms < t)

module _ (nonce : Bytes) (ts : ℕ) where
  after-holds :
      (c : ReplayCache) (k : Call)
      → IsValid c
      → holds nonce ts (live_entries c k.now) ≡ true
      → holds nonce ts c.seen ≡ true
      → holds nonce ts (after c k).seen ≡ true
  after-holds c k v live all = elim (Result-cases (verdict c k)) [
    | inl (a, e) ↦
        rw (seen-accepted c k.nonce k.timestamp k.now v.unique e)
          (holds-append_left nonce ts (live_entries c k.now) ((k.nonce, k.timestamp) ∷ []) live)
    | inr (x, e) ↦ elim (seen-rejected c k.nonce k.timestamp k.now v.unique e) [
      | inl (_, same) ↦ rw same all
      | inr purged ↦ rw purged live
    ]
  ]

  after-Remembers :
      (c : ReplayCache) (k : Call) (t : ℕ)
      → IsValid c
      → t ≤ k.now
      → Remembers nonce ts c t
      → Remembers nonce ts (after c k) k.now
  after-Remembers c k t v le (inr gone) = inr (omega (arith, (settings_kept c k).0))
  after-Remembers c k t v le (inl h) = elim (Bool-cases (is_live c.window_ms k.now (nonce, ts))) [
    | inl live ↦
        inl (after-holds c k v (holds-filter nonce ts c.window_ms k.now c.seen h (ground arith)) h)
    | inr gone ↦ inr (rw (settings_kept c k).0 (ground arith))
  ]

  never_again :
      (c : ReplayCache) (t : ℕ) (ks : List Call) (again : Call)
      → IsValid c
      → Remembers nonce ts c t
      → IsOrdered t (ks ++ again ∷ [])
      → again.nonce ≡ nonce
      → again.timestamp ≡ ts
      → verdict (after_all c ks) again ≢ ok tt
  unfolding after_all
  never_again c t [] again v r (le, _) same_nonce same_ts accepted =
      let f =
        (check_and_store-accepts_iff c again.nonce again.timestamp again.now v.unique).0 accepted in
      elim r [
        | inl h ↦ ground (
          arith,
          same_nonce,
          contains_of_holds nonce ts (live_entries c again.now)
              (holds-filter nonce ts c.window_ms again.now c.seen h (omega (arith, f.recent))),
        )
        | inr gone ↦ absurd (omega (arith, f.recent))
      ]
  never_again c t (k ∷ ks) again v r (le, o) same_nonce same_ts accepted =
      never_again (after c k) k.now ks again (check_and_store-IsValid c k.nonce k.timestamp k.now v)
        (after-Remembers c k t v le r) o same_nonce same_ts accepted

-- A packet that a valid cache accepted is rejected ever after: whatever calls come in between, at
-- instants that do not go back, the same nonce with the same timestamp is not accepted again.
pub accepted_once :
    (c : ReplayCache) (k again : Call) (ks : List Call)
    → IsValid c
    → verdict c k ≡ ok tt
    → IsOrdered k.now (ks ++ again ∷ [])
    → again.nonce ≡ k.nonce
    → again.timestamp ≡ k.timestamp
    → verdict (after_all (after c k) ks) again ≢ ok tt
accepted_once c k again ks v e o same_nonce same_ts =
    never_again k.nonce k.timestamp (after c k) k.now ks again
      (check_and_store-IsValid c k.nonce k.timestamp k.now v)
      (inl (
        rw (seen-accepted c k.nonce k.timestamp k.now v.unique e)
          (holds-append_self k.nonce k.timestamp (live_entries c k.now))))
      o same_nonce same_ts
