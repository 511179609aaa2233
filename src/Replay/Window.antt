-- ===== src/Replay/Window.antt =====
-- Which calls of `check_and_store` are accepted, and what they leave in the cache.
use relay_x.Prelude.{
  ℕ, ◌+◌, ◌≤◌, ◌<◌, ◌≡◌, false, ◌↔◌, [], ◌∷◌, ◌++◌, arith, length, filter, ap, not, ◌==◌,
  if◌then◌else◌, ◌⊎◌,
}
use relay_x.Text.{Bytes}
use relay_x.Errors.{ok, err, Exn, protocol_error}
use relay_x.Replay.{Seen, ReplayCache, contains, check, check_and_store}
use relay_x.Replay.Purge.{HasUniqueKeys, is_live, is_before_lem, purge-eq-filter, store-absent}

-- What of the cache still counts at an instant.
abbrev pub live_entries : ReplayCache → ℕ → Seen
live_entries c now = filter (is_live c.window_ms now) c.seen

-- When a packet is fresh: inside the window, not from the future, its nonce unused among the
-- entries that still count, and room for one more.
pub record IsFresh (c : ReplayCache) (nonce : Bytes) (ts now : ℕ) : Type 0 where
  pub sized : length nonce ≡ 16
  pub recent : now ≤ ts + c.window_ms
  pub not_future : ts ≤ now + c.skew_ms
  pub unused : contains nonce (live_entries c now) ≡ false
  pub room : length (live_entries c now) < c.max_entries

module _ (c : ReplayCache) (nonce : Bytes) (ts now : ℕ) (u : HasUniqueKeys c.seen) where
  pub check_and_store-purged : check_and_store c nonce ts now ≡ (
      if not (length nonce == 16)
      then (err protocol_error, c)
      else check (record c { seen = live_entries c now }) nonce ts now)
  unfolding check_and_store
  check_and_store-purged =
      ap
        (λ (d : ReplayCache).
          if not (length nonce == 16) then (err protocol_error, c) else check d nonce ts now)
        (purge-eq-filter c now u)

  IsFresh-of_ok : (check_and_store c nonce ts now).0 ≡ ok tt → IsFresh c nonce ts now
  unfolding check_and_store check
  IsFresh-of_ok h = let h' = rw (purge-eq-filter c now u, is_before_lem) at h in ground arith

  ok_of_IsFresh : IsFresh c nonce ts now → (check_and_store c nonce ts now).0 ≡ ok tt
  unfolding check_and_store check
  ok_of_IsFresh h = rw (purge-eq-filter c now u, is_before_lem) (ground arith)

  -- Over a dictionary, a call is accepted exactly when the packet is fresh: a nonce of 16 bytes, a
  -- timestamp inside the window and not too far in the future, a nonce that no entry inside the
  -- window has, and fewer than max_entries such entries.
  pub check_and_store-accepts_iff :
      ((check_and_store c nonce ts now).0 ≡ ok tt) ↔ IsFresh c nonce ts now
  check_and_store-accepts_iff = (IsFresh-of_ok, ok_of_IsFresh)

  -- An accepted call leaves the entries that still count, with the packet's nonce and timestamp
  -- behind them.
  pub seen-accepted :
      (check_and_store c nonce ts now).0 ≡ ok tt
      → (check_and_store c nonce ts now).1
        ≡ record c { seen = live_entries c now ++ (nonce, ts) ∷ [] }
  unfolding check_and_store check
  seen-accepted h =
      let h' = rw (purge-eq-filter c now u, is_before_lem) at h in
      rw (purge-eq-filter c now u, is_before_lem)
        (ground (arith, store-absent nonce ts (live_entries c now)))

  -- Over a dictionary, a rejected call stores nothing: it leaves the cache as it was, if the nonce
  -- had the wrong size, and the entries inside the window, if not.
  pub seen-rejected :
      {e : Exn}
      → (check_and_store c nonce ts now).0 ≡ err e
      → ((e ≡ protocol_error) × ((check_and_store c nonce ts now).1 ≡ c))
        ⊎ ((check_and_store c nonce ts now).1 ≡ record c { seen = live_entries c now })
  unfolding check_and_store check
  seen-rejected h =
      let h' = rw (purge-eq-filter c now u, is_before_lem) at h in
      rw (purge-eq-filter c now u, is_before_lem) (ground arith)
