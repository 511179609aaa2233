-- ===== src/Samples/Table.antt =====
-- A msgpack that knows the three sample messages.
use relay_x.Prelude.{
  ◌≡◌, refl, ap, ap₂, ◌∙◌, [], ◌∷◌, Bool, true, false, ◌&&◌, not, ◌==◌, ==_iff, Option, some, none,
  if◌then◌else◌, arith, Bool-cases, inl, inr, &&_iff,
}
use relay_x.Prelude.Int.{ℤ, pos, negsuc}
use relay_x.Text.{Bytes}
use relay_x.Text.Equality.{text_eq, eq_of_text_eq}
use relay_x.Codec.Data.{Value, Items, Fields, Key, text_key, bytes_key, done, item, end, field}
use relay_x.Codec.{Msgpack, IsMsgpack, to_dict}
use relay_x.Models.{request, response, error}
use relay_x.Samples.Messages.{sample_request, sample_response, sample_error}

abbrev same_int : ℤ → ℤ → Bool
same_int (pos a) (pos b) = a == b
same_int _ _ = false

abbrev same_key : Key → Key → Bool
same_key (text_key a) (text_key b) = text_eq a b
same_key _ _ = false

abbrev same_bool : Bool → Bool → Bool
same_bool true b = b
same_bool false b = not b

-- Equality of the values that the sample messages hold.
abbrev mutual
  same : Value → Value → Bool
  same Value.nil Value.nil = true
  same (Value.bool a) (Value.bool b) = same_bool a b
  same (Value.int a) (Value.int b) = same_int a b
  same (Value.str a) (Value.str b) = text_eq a b
  same (Value.bin a) (Value.bin b) = text_eq a b
  same (Value.list a) (Value.list b) = same_items a b
  same (Value.dict a) (Value.dict b) = same_fields a b
  same _ _ = false

  same_items : Items → Items → Bool
  same_items done done = true
  same_items (item a s) (item b t) = same a b && same_items s t
  same_items _ _ = false

  same_fields : Fields → Fields → Bool
  same_fields end end = true
  same_fields (field j a s) (field k b t) = same_key j k && (same a b && same_fields s t)
  same_fields _ _ = false

eq_of_same_int : (a b : ℤ) → same_int a b ≡ true → a ≡ b
eq_of_same_int (pos a) (pos b) h = ap pos ((==_iff a b).0 h)
eq_of_same_int (pos a) (negsuc b) h = cc
eq_of_same_int (negsuc a) b h = cc

eq_of_same_key : (a b : Key) → same_key a b ≡ true → a ≡ b
eq_of_same_key (text_key a) (text_key b) h = ap text_key (eq_of_text_eq a b h)
eq_of_same_key (text_key a) (bytes_key b) h = cc
eq_of_same_key (bytes_key a) b h = cc

eq_of_same_bool : (a b : Bool) → same_bool a b ≡ true → a ≡ b
eq_of_same_bool a b h = ground arith

mutual
  eq_of_same : (a b : Value) → same a b ≡ true → a ≡ b
  eq_of_same Value.nil Value.nil h = refl
  eq_of_same (Value.bool a) (Value.bool b) h = ap (λ x. Value.bool x) (eq_of_same_bool a b h)
  eq_of_same (Value.int a) (Value.int b) h = ap (λ x. Value.int x) (eq_of_same_int a b h)
  eq_of_same (Value.str a) (Value.str b) h = ap (λ x. Value.str x) (eq_of_text_eq a b h)
  eq_of_same (Value.bin a) (Value.bin b) h = ap (λ x. Value.bin x) (eq_of_text_eq a b h)
  eq_of_same (Value.list a) (Value.list b) h = ap (λ x. Value.list x) (eq_of_same_items a b h)
  eq_of_same (Value.dict a) (Value.dict b) h = ap (λ x. Value.dict x) (eq_of_same_fields a b h)
  eq_of_same _ _ h = cc

  eq_of_same_items : (s t : Items) → same_items s t ≡ true → s ≡ t
  eq_of_same_items done done h = refl
  eq_of_same_items (item a s) (item b t) h =
      let (x, y) = (&&_iff (same a b) (same_items s t)).0 h in
      ap₂ item (eq_of_same a b x) (eq_of_same_items s t y)
  eq_of_same_items _ _ h = cc

  eq_of_same_fields : (s t : Fields) → same_fields s t ≡ true → s ≡ t
  eq_of_same_fields end end h = refl
  eq_of_same_fields (field j a s) (field k b t) h =
      let (x, r) = (&&_iff (same_key j k) _).0 h in
      let (y, z) = (&&_iff (same a b) (same_fields s t)).0 r in
      let e : field j a s ≡ field k a s = ap (λ i. field i a s) (eq_of_same_key j k x) in
      e ∙ ap₂ (field k) (eq_of_same a b y) (eq_of_same_fields s t z)
  eq_of_same_fields _ _ h = cc

abbrev request_value : Value
request_value = Value.dict (to_dict (request sample_request))

abbrev response_value : Value
response_value = Value.dict (to_dict (response sample_response))

abbrev error_value : Value
error_value = Value.dict (to_dict (error sample_error))

abbrev unpack : Bytes → Option Value
unpack b =
    if text_eq b (1 ∷ [])
    then some request_value
    else if text_eq b (2 ∷ [])
    then some error_value
    else if text_eq b (3 ∷ [])
    then some response_value
    else none

abbrev pack : Value → Option Bytes
pack v =
    if same v request_value
    then some (1 ∷ [])
    else if same v error_value
    then some (2 ∷ [])
    else if same v response_value
    then some (3 ∷ [])
    else none

-- A codec of the three sample messages only.
abbrev pub msgpack : Msgpack
msgpack = record { packb = pack; unpackb = unpack }

unpack-pack : (v : Value) (b : Bytes) → pack v ≡ some b → unpack b ≡ some v
unfolding text_eq
unpack-pack v b h = elim (Bool-cases (same v request_value)) [
  | inl e ↦ ground (arith, e, eq_of_same v request_value e)
  | inr n ↦ elim (Bool-cases (same v error_value)) [
    | inl e ↦ ground (arith, n, e, eq_of_same v error_value e)
    | inr m ↦ elim (Bool-cases (same v response_value)) [
      | inl e ↦ ground (arith, n, m, e, eq_of_same v response_value e)
      | inr l ↦ ground (arith, n, m, l)
    ]
  ]
]

pub msgpack-IsMsgpack : IsMsgpack msgpack
msgpack-IsMsgpack = record { unpackb-packb = unpack-pack }
