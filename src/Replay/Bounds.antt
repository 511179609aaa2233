-- ===== src/Replay/Bounds.antt =====
-- The cache is a dictionary of 16-byte nonces that never holds more than `max_entries`.
use relay_x.Prelude.{
  ℕ, ◌≤◌, ◌≡◌, [], ◌∷◌, ◌++◌, arith, length, filter, inl, inr, Bool-cases, Bool, length-append,
  length-filter-le, All, All-append,
}
use relay_x.Text.{Bytes}
use relay_x.Errors.{Result-cases}
use relay_x.Replay.{Seen, ReplayCache, new_cache, check_and_store}
use relay_x.Replay.Purge.{HasUniqueKeys, is_live, filter-HasUniqueKeys, append-HasUniqueKeys}
use relay_x.Replay.Window.{
  live_entries, IsFresh, check_and_store-accepts_iff, seen-accepted, seen-rejected,
}

abbrev pub IsNonce : Bytes × ℕ → Type 0
IsNonce entry = length entry.0 ≡ 16

pub record IsValid (c : ReplayCache) : Type 0 where
  pub unique : HasUniqueKeys c.seen
  pub capped : length c.seen ≤ c.max_entries
  pub nonces : All IsNonce c.seen

pub new_cache-IsValid : (window max skew : ℕ) → IsValid (new_cache window max skew)
new_cache-IsValid window max skew = record { unique = tt; capped = omega arith; nonces = tt }

All-filter : (p : Bytes × ℕ → Bool) (m : Seen) → All IsNonce m → All IsNonce (filter p m)
All-filter p [] h = tt
All-filter p (e ∷ m) (h, hs) = elim (Bool-cases (p e)) [
  | inl kept ↦ rw kept (h, All-filter p m hs)
  | inr gone ↦ rw gone (All-filter p m hs)
]

purged-IsValid :
    (c : ReplayCache) (now : ℕ) → IsValid c → IsValid (record c { seen = live_entries c now })
purged-IsValid c now v = record {
  unique = filter-HasUniqueKeys (is_live c.window_ms now) c.seen v.unique;
  capped = omega (arith, length-filter-le (is_live c.window_ms now) c.seen, v.capped);
  nonces = All-filter (is_live c.window_ms now) c.seen v.nonces;
}

stored-IsValid :
    (c : ReplayCache) (nonce : Bytes) (ts now : ℕ)
    → IsValid c
    → IsFresh c nonce ts now
    → IsValid (record c { seen = live_entries c now ++ (nonce, ts) ∷ [] })
stored-IsValid c nonce ts now v f =
    let p = purged-IsValid c now v in
    record {
      unique = append-HasUniqueKeys (live_entries c now) nonce ts p.unique f.unused;
      capped = omega (arith, length-append (live_entries c now) ((nonce, ts) ∷ []), f.room);
      nonces = All-append IsNonce (live_entries c now) ((nonce, ts) ∷ []) p.nonces (f.sized, tt);
    }

-- Every call on a valid cache, accepted or rejected, leaves a valid cache: distinct nonces of 16
-- bytes, and at most max_entries of them.
pub check_and_store-IsValid :
    (c : ReplayCache) (nonce : Bytes) (ts now : ℕ)
    → IsValid c
    → IsValid (check_and_store c nonce ts now).1
check_and_store-IsValid c nonce ts now v = elim (Result-cases (check_and_store c nonce ts now).0) [
  | inl (a, h) ↦
      rw (seen-accepted c nonce ts now v.unique h) (
        stored-IsValid c nonce ts now v ((check_and_store-accepts_iff c nonce ts now v.unique).0 h))
  | inr (e, h) ↦ elim (seen-rejected c nonce ts now v.unique h) [
    | inl (_, same) ↦ rw same v
    | inr purged ↦ rw purged (purged-IsValid c now v)
  ]
]
