-- ===== src/Replay/History.antt =====
-- Runs of the cache: what a sequence of calls accepts, against the history of all that was ever
-- accepted, which never forgets.
use relay_x.Prelude.{
  ℕ, ◌+◌, ◌*◌, ◌≤◌, ◌≡◌, refl, sym, ap, ap₂, List, [], ◌∷◌, ◌++◌, arith, length, filter, inl, inr,
  filter-append, ltb, leb, not, ◌==◌, if◌then◌else◌, ◌∙◌,
}
use relay_x.Text.{Bytes}
use relay_x.Errors.{
  Result, Result-cases, ok, err, protocol_error, packet_expired, packet_from_future,
  replay_detected, replay_cache_full,
}
use relay_x.Replay.{Seen, ReplayCache, contains, new_cache, purge, check, check_and_store}
use relay_x.Replay.Purge.{is_live, is_before_lem}
use relay_x.Replay.Window.{check_and_store-purged, seen-accepted, seen-rejected}
use relay_x.Replay.Bounds.{IsValid, new_cache-IsValid, check_and_store-IsValid}

pub record Call : Type 0 where
  pub nonce : Bytes
  pub timestamp : ℕ
  pub now : ℕ

abbrev pub verdict : ReplayCache → Call → Result (Unit {0})
verdict c k = (check_and_store c k.nonce k.timestamp k.now).0

abbrev pub after : ReplayCache → Call → ReplayCache
after c k = (check_and_store c k.nonce k.timestamp k.now).1

-- The verdicts of a sequence of calls, and the cache that they leave.
unfoldable pub verdicts : ReplayCache → List Call → List (Result (Unit {0}))
verdicts c [] = []
verdicts c (k ∷ ks) = verdict c k ∷ verdicts (after c k) ks

unfoldable pub after_all : ReplayCache → List Call → ReplayCache
after_all c [] = c
after_all c (k ∷ ks) = after_all (after c k) ks

-- The clock does not go back, from the instant `t` on.
abbrev pub IsOrdered : ℕ → List Call → Type 0
IsOrdered t [] = Unit
IsOrdered t (k ∷ ks) = (t ≤ k.now) × IsOrdered k.now ks

abbrev extend : Result (Unit {0}) → Seen → Call → Seen
extend (ok _) h k = h ++ (k.nonce, k.timestamp) ∷ []
extend (err _) h k = h

-- The specification: decide from the full history, of which only what lies inside the window
-- counts, and purge nothing.
module _ (window skew max : ℕ) where
  unfoldable pub spec_verdict : Seen → Call → Result (Unit {0})
  spec_verdict h k =
      let live = filter (is_live window k.now) h in
      if not (length k.nonce == 16)
      then err protocol_error
      else if ltb (k.timestamp + window) k.now
      then err packet_expired
      else if ltb (k.now + skew) k.timestamp
      then err packet_from_future
      else if contains k.nonce live
      then err replay_detected
      else if leb max (length live)
      then err replay_cache_full
      else ok tt

  unfoldable pub record_call : Seen → Call → Seen
  record_call h k = extend (spec_verdict h k) h k

  unfoldable pub spec_verdicts : Seen → List Call → List (Result (Unit {0}))
  spec_verdicts h [] = []
  spec_verdicts h (k ∷ ks) = spec_verdict h k ∷ spec_verdicts (record_call h k) ks

-- What a later instant keeps, an earlier one kept.
filter_live_twice :
    (window t u : ℕ) (m : Seen)
    → t ≤ u
    → filter (is_live window u) (filter (is_live window t) m) ≡ filter (is_live window u) m
filter_live_twice window t u [] h = refl
filter_live_twice window t u ((k, ts) ∷ m) h = ground (arith, filter_live_twice window t u m h)

-- From the instant `t` on, the cache and the history show the same entries inside the window.
abbrev Agrees : ℕ → ReplayCache → Seen → Type 0
Agrees t c h =
    (u : ℕ) → t ≤ u → filter (is_live c.window_ms u) c.seen ≡ filter (is_live c.window_ms u) h

module _ (c : ReplayCache) (h : Seen) (k : Call) (t : ℕ) (v : IsValid c) (g : Agrees t c h)
    (le : t ≤ k.now) where
  verdict-eq-spec : verdict c k ≡ spec_verdict c.window_ms c.skew_ms c.max_entries h k
  unfolding check spec_verdict
  verdict-eq-spec =
      ap (λ (r : Result (Unit {0}) × ReplayCache). r.0)
        (check_and_store-purged c k.nonce k.timestamp k.now v.unique)
      ∙ (rw (← g k.now le) (ground (arith, is_before_lem k.now c.window_ms k.timestamp)))

  after-Agrees : Agrees k.now (after c k) (record_call c.window_ms c.skew_ms c.max_entries h k)
  unfolding record_call
  after-Agrees u later = elim (Result-cases (verdict c k)) [
    | inl (a, e) ↦
        rw
          (
            sym verdict-eq-spec ∙ e,
            record_call,
            seen-accepted c k.nonce k.timestamp k.now v.unique e,
          )
          (simp filter-append (
            ap (λ m. m ++ filter (is_live c.window_ms u) ((k.nonce, k.timestamp) ∷ []))
              (filter_live_twice c.window_ms k.now u c.seen later ∙ g u (omega arith))))
    | inr (x, e) ↦
        rw (sym verdict-eq-spec ∙ e, record_call)
          (elim (seen-rejected c k.nonce k.timestamp k.now v.unique e) [
            | inl (_, same) ↦ rw same (g u (omega arith))
            | inr purged ↦
                rw purged (filter_live_twice c.window_ms k.now u c.seen later ∙ g u (omega arith))
          ])
  ]

pub settings_kept :
    (c : ReplayCache) (k : Call)
    → ((after c k).window_ms ≡ c.window_ms)
      × ((after c k).skew_ms ≡ c.skew_ms)
      × ((after c k).max_entries ≡ c.max_entries)
unfolding check_and_store check purge
settings_kept c k = ground arith

verdicts-eq-spec :
    (c : ReplayCache) (h : Seen) (t : ℕ) (ks : List Call)
    → IsValid c
    → Agrees t c h
    → IsOrdered t ks
    → verdicts c ks ≡ spec_verdicts c.window_ms c.skew_ms c.max_entries h ks
unfolding verdicts spec_verdicts
verdicts-eq-spec c h t [] v g o = refl
verdicts-eq-spec c h t (k ∷ ks) v g (le, o) =
    let (w, s, m) = settings_kept c k in
    let ih =
      verdicts-eq-spec (after c k) (record_call c.window_ms c.skew_ms c.max_entries h k) k.now ks
        (check_and_store-IsValid c k.nonce k.timestamp k.now v) (after-Agrees c h k t v g le) o in
    ap₂ (λ a b. a ∷ b) (verdict-eq-spec c h k t v g le)
      (ih ∙ λ i.
        spec_verdicts (w i) (s i) (m i) (record_call c.window_ms c.skew_ms c.max_entries h k) ks)

-- Whatever calls come, at instants that do not go back, a new cache gives the verdicts of the
-- specification that remembers every accepted packet for ever and counts those inside the window.
pub verdicts-refines-history :
    (window max skew : ℕ) (ks : List Call)
    → IsOrdered 0 ks
    → verdicts (new_cache window max skew) ks
      ≡ spec_verdicts (window * 1000) (skew * 1000) max [] ks
verdicts-refines-history window max skew ks o =
    verdicts-eq-spec (new_cache window max skew) [] 0 ks (new_cache-IsValid window max skew)
      (λ u h. refl) o
