-- ===== src/Replay/Purge.antt =====
-- `_purge` deletes one expired key after the other; on a dictionary this is a filter.
use relay_x.Prelude.{
  ℕ, ◌+◌, ◌≡◌, refl, ap, Bool, true, false, not, List, [], ◌∷◌, ◌++◌, inl, inr, arith, ltb, any,
  filter, Bool-cases,
}
use relay_x.Prelude.Int.{ℤ, sub_ℕ}
use relay_x.Text.{Bytes}
use relay_x.Text.Equality.{text_eq, text_eq_refl, eq_of_text_eq, text_eq_iff}
use relay_x.Replay.{
  Seen, ReplayCache, contains, delete, store, is_before, expired_nonces, delete_all, purge,
}

-- The keys of a dictionary differ.
abbrev pub HasUniqueKeys : Seen → Type 0
HasUniqueKeys [] = Unit
HasUniqueKeys ((k, ts) ∷ m) = (contains k m ≡ false) × HasUniqueKeys m

-- Not yet outside a window of `window` milliseconds at the instant `now`.
abbrev pub is_live : ℕ → ℕ → Bytes × ℕ → Bool
is_live window now entry = not (ltb (entry.1 + window) now)

pub is_before_lem : (now window ts : ℕ) → is_before (sub_ℕ now window) ts ≡ ltb (ts + window) now
is_before_lem now window ts = ground arith

-- `text_eq` tells two keys apart.
text_eq-ne : (k j n : Bytes) → text_eq k n ≡ true → text_eq k j ≡ false → text_eq j n ≡ false
text_eq-ne k j n e h = elim (Bool-cases (text_eq j n)) [
  | inl same ↦ ground (arith, eq_of_text_eq j n same, eq_of_text_eq k n e, text_eq_refl n)
  | inr other ↦ other
]

pub contains-filter :
    (p : Bytes × ℕ → Bool) (k : Bytes) (m : Seen)
    → contains k m ≡ false
    → contains k (filter p m) ≡ false
contains-filter p k [] h = refl
contains-filter p k (e ∷ m) h = ground (arith, contains-filter p k m)

pub filter-HasUniqueKeys :
    (p : Bytes × ℕ → Bool) (m : Seen) → HasUniqueKeys m → HasUniqueKeys (filter p m)
filter-HasUniqueKeys p [] h = tt
filter-HasUniqueKeys p ((k, ts) ∷ m) (h, u) = elim (Bool-cases (p (k, ts))) [
  | inl kept ↦ rw kept (contains-filter p k m h, filter-HasUniqueKeys p m u)
  | inr gone ↦ rw gone (filter-HasUniqueKeys p m u)
]

-- A key that is not listed survives `delete_all`.
delete_all-cons :
    (ks : List Bytes) (k : Bytes) (ts : ℕ) (m : Seen)
    → any (λ j. text_eq k j) ks ≡ false
    → delete_all ks ((k, ts) ∷ m) ≡ (k, ts) ∷ delete_all ks m
unfolding delete_all delete
delete_all-cons [] k ts m h = refl
delete_all-cons (j ∷ ks) k ts m h = ground (arith, delete_all-cons ks k ts (delete j m))

delete_all_self :
    (ks : List Bytes) (k : Bytes) (ts : ℕ) (m : Seen)
    → delete_all (k ∷ ks) ((k, ts) ∷ m) ≡ delete_all ks m
unfolding delete_all delete
delete_all_self ks k ts m = rw (text_eq_refl k, delete_all)

expired_nonces-other :
    (cutoff : ℤ) (k : Bytes) (m : Seen)
    → contains k m ≡ false
    → any (λ j. text_eq k j) (expired_nonces cutoff m) ≡ false
unfolding expired_nonces
expired_nonces-other cutoff k [] h = refl
expired_nonces-other cutoff k ((j, ts) ∷ m) h =
    ground (arith, expired_nonces-other cutoff k m, text_eq_iff j k, text_eq_iff k j)

delete_all-eq-filter :
    (window now : ℕ) (m : Seen)
    → HasUniqueKeys m
    → delete_all (expired_nonces (sub_ℕ now window) m) m ≡ filter (is_live window now) m
unfolding expired_nonces
delete_all-eq-filter window now [] h = unfold delete_all in refl
delete_all-eq-filter window now ((k, ts) ∷ m) (h, u) =
    rw is_before_lem (elim (Bool-cases (ltb (ts + window) now)) [
      | inl gone ↦
          rw (gone, delete_all_self (expired_nonces (sub_ℕ now window) m) k ts m)
            (delete_all-eq-filter window now m u)
      | inr kept ↦
          rw (kept, delete_all-cons _ k ts m (expired_nonces-other (sub_ℕ now window) k m h))
            (ap (λ (t : Seen). (k, ts) ∷ t) (delete_all-eq-filter window now m u))
    ])

-- Over a dictionary, _purge keeps exactly the entries that are not outside the window, in their
-- order, and changes nothing else.
pub purge-eq-filter :
    (c : ReplayCache) (now : ℕ)
    → HasUniqueKeys c.seen
    → purge c now ≡ record c { seen = filter (is_live c.window_ms now) c.seen }
unfolding purge
purge-eq-filter c now u =
    ap (λ (s : Seen). record c { seen = s }) (delete_all-eq-filter c.window_ms now c.seen u)

-- A key that is absent is stored at the end.
pub store-absent :
    (k : Bytes) (ts : ℕ) (m : Seen) → contains k m ≡ false → store k ts m ≡ m ++ (k, ts) ∷ []
unfolding store
store-absent k ts [] h = refl
store-absent k ts (e ∷ m) h = ground (arith, store-absent k ts m)

contains-append :
    (j : Bytes) (m : Seen) (k : Bytes) (ts : ℕ)
    → contains j m ≡ false
    → text_eq k j ≡ false
    → contains j (m ++ (k, ts) ∷ []) ≡ false
contains-append j [] k ts h e = ground arith
contains-append j (x ∷ m) k ts h e = ground (arith, contains-append j m k ts)

pub append-HasUniqueKeys :
    (m : Seen) (k : Bytes) (ts : ℕ)
    → HasUniqueKeys m
    → contains k m ≡ false
    → HasUniqueKeys (m ++ (k, ts) ∷ [])
append-HasUniqueKeys [] k ts h e = (refl, tt)
append-HasUniqueKeys ((j, old) ∷ m) k ts (h, u) e = (
  contains-append j m k ts h (ground (arith, text_eq_iff j k, text_eq_iff k j)),
  append-HasUniqueKeys m k ts u (ground arith),
)
