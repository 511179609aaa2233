-- ===== src/Replay.antt =====
-- relayx/protocol/replay.py: the in-memory replay protection for authenticated packets.
-- Instants and durations are natural numbers of milliseconds; the cutoff, which may lie before the
-- epoch, is an integer. The clock is an argument, as `now_ms` is in the source.
pub mod Purge
pub mod Window
pub mod Bounds
pub mod History
pub mod Once
mod Tests
use relay_x.Prelude.{
  ℕ, ◌+◌, ◌*◌, Bool, true, false, List, [], ◌∷◌, ◌++◌, ltb, leb, ◌==◌, not, length, if◌then◌else◌,
  any,
}
use relay_x.Prelude.Int.{ℤ, pos, sub_ℕ, ltb_ℤ}
use relay_x.Text.{Bytes}
use relay_x.Text.Equality.{text_eq}
use relay_x.Constants.{nonce_id_size}
use relay_x.Errors.{
  Result, ok, err, protocol_error, packet_expired, packet_from_future, replay_detected,
  replay_cache_full,
}

-- `dict[bytes, int]`, in the order of insertion.
abbrev pub Seen : Type 0
Seen = List (Bytes × ℕ)

pub record ReplayCache : Type 0 where
  pub window_ms : ℕ
  pub skew_ms : ℕ
  pub max_entries : ℕ
  pub seen : Seen

-- __init__
abbrev pub new_cache : ℕ → ℕ → ℕ → ReplayCache
new_cache window_seconds max_entries allowed_clock_skew_seconds = record {
  window_ms = window_seconds * 1000;
  skew_ms = allowed_clock_skew_seconds * 1000;
  max_entries = max_entries;
  seen = [];
}

abbrev pub has_nonce : Bytes → Bytes × ℕ → Bool
has_nonce nonce entry = text_eq entry.0 nonce

-- nonce_id in self._seen
abbrev pub contains : Bytes → Seen → Bool
contains nonce = any (has_nonce nonce)

-- del self._seen[nonce]
unfoldable pub delete : Bytes → Seen → Seen
delete nonce [] = []
delete nonce ((k, ts) ∷ m) = if text_eq k nonce then m else (k, ts) ∷ delete nonce m

-- self._seen[nonce] = ts
unfoldable pub store : Bytes → ℕ → Seen → Seen
store nonce ts [] = (nonce, ts) ∷ []
store nonce ts ((k, old) ∷ m) = if text_eq k nonce then (k, ts) ∷ m else (k, old) ∷ store nonce ts m

-- ts < cutoff
abbrev pub is_before : ℤ → ℕ → Bool
is_before cutoff ts = ltb_ℤ (pos ts) cutoff

unfoldable pub expired_nonces : ℤ → Seen → List Bytes
expired_nonces cutoff [] = []
expired_nonces cutoff ((nonce, ts) ∷ m) =
    let rest = expired_nonces cutoff m in if is_before cutoff ts then nonce ∷ rest else rest

unfoldable pub delete_all : List Bytes → Seen → Seen
delete_all [] m = m
delete_all (nonce ∷ nonces) m = delete_all nonces (delete nonce m)

-- _purge
unfoldable pub purge : ReplayCache → ℕ → ReplayCache
purge c now_ms =
    let cutoff = sub_ℕ now_ms c.window_ms in
    record c { seen = delete_all (expired_nonces cutoff c.seen) c.seen }

-- What check_and_store does after the purge.
unfoldable pub check : ReplayCache → Bytes → ℕ → ℕ → Result (Unit {0}) × ReplayCache
check c nonce_id timestamp_ms now_ms =
    if is_before (sub_ℕ now_ms c.window_ms) timestamp_ms
    then (err packet_expired, c)
    else if ltb (now_ms + c.skew_ms) timestamp_ms
    then (err packet_from_future, c)
    else if contains nonce_id c.seen
    then (err replay_detected, c)
    else if leb c.max_entries (length c.seen)
    then (err replay_cache_full, c)
    else (ok tt, record c { seen = store nonce_id timestamp_ms c.seen })

unfoldable pub check_and_store : ReplayCache → Bytes → ℕ → ℕ → Result (Unit {0}) × ReplayCache
check_and_store c nonce_id timestamp_ms now_ms =
    if not (length nonce_id == nonce_id_size)
    then (err protocol_error, c)
    else check (purge c now_ms) nonce_id timestamp_ms now_ms
