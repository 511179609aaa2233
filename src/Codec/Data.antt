-- ===== src/Codec/Data.antt =====
-- The Python values that msgpack packs and unpacks.
use relay_x.Prelude.{
  ℕ, List, [], ◌∷◌, Bool, true, false, ◌&&◌, ◌==◌, Option, some, none, if◌then◌else◌,
}
use relay_x.Prelude.Int.{ℤ, pos}
use relay_x.Text.{Text, Bytes}
use relay_x.Text.Equality.{text_eq, one_of}

-- With strict_map_key a key is a `str` or a `bytes`.
pub data Key : Type 0 where
  text_key : Text → Key
  bytes_key : Bytes → Key

-- A float is its IEEE double; `ext` stands for extension types and timestamps.
mutual
  pub data Value : Type 0 where
    nil : Value
    bool : Bool → Value
    int : ℤ → Value
    float : ℕ → Value
    str : Text → Value
    bin : Bytes → Value
    ext : ℕ → Bytes → Value
    list : Items → Value
    tuple : Items → Value
    dict : Fields → Value

  pub data Items : Type 0 where
    done : Items
    item : Value → Items → Items

  pub data Fields : Type 0 where
    end : Fields
    field : Key → Value → Fields → Fields

abbrev pub is_key : Text → Key → Bool
is_key k (text_key j) = text_eq j k
is_key k (bytes_key b) = false

-- raw.get(k) for a `str` k
unfoldable pub get : Text → Fields → Option Value
get k end = none
get k (field j v m) = if is_key k j then some v else get k m

-- data[k] = v for a `str` k
unfoldable pub put : Text → Value → Fields → Fields
put k v end = field (text_key k) v end
put k v (field j w m) = if is_key k j then field j v m else field j w (put k v m)

-- Every key of the dictionary is one of `keys`.
unfoldable pub only_keys : List Text → Fields → Bool
unfolding one_of
only_keys keys end = true
only_keys keys (field (text_key k) v m) = one_of k keys && only_keys keys m
only_keys keys (field (bytes_key b) v m) = false

abbrev pub is_some {ℓ} : {A : Type ℓ} → Option A → Bool
is_some none = false
is_some (some a) = true

unfoldable pub has_keys : List Text → Fields → Bool
unfolding get
has_keys [] m = true
has_keys (k ∷ ks) m = is_some (get k m) && has_keys ks m

-- `v == 1` in Python: so are True and 1.0.
abbrev pub equals_one : Value → Bool
equals_one (int (pos n)) = n == 1
equals_one (bool b) = b
equals_one (float bits) = bits == 0x3ff0_0000_0000_0000
equals_one _ = false

-- `v == t` for a `str` t
abbrev pub equals_text : Text → Value → Bool
equals_text t (str s) = text_eq s t
equals_text t _ = false

abbrev pub is_nil : Value → Bool
is_nil nil = true
is_nil _ = false
