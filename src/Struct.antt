-- ===== src/Struct.antt =====
-- Python's `struct` at the big-endian formats that crypto/aead.py uses: `B`, `I` and `Q`, and `Ns`.
pub mod Laws
use mathlib.Core.List.{reverse}
use relay_x.Prelude.{
  ℕ, zero, suc, ◌+◌, ◌*◌, ◌/◌, ◌%◌, ◌^◌, ◌<◌, List, [], ◌∷◌, ◌++◌, ltb, if◌then◌else◌, take, drop,
  replicate, All,
}
use relay_x.Text.{Bytes}
use relay_x.Errors.{Result, ok, err, struct_error}

abbrev pub IsBytes : Bytes → Type 0
IsBytes = All (λ b. b < 256)

-- `size` bytes of `n`, the lowest first.
unfoldable pub little : ℕ → ℕ → Bytes
little zero n = []
little (suc size) n = (n % 256) ∷ little size (n / 256)

unfoldable pub from_little : Bytes → ℕ
from_little [] = 0
from_little (b ∷ bs) = b + 256 * from_little bs

-- An unsigned integer of `size` bytes; `struct.pack` refuses one that does not fit.
unfoldable pub pack_uint : ℕ → ℕ → Result Bytes
pack_uint size n = if ltb n (256 ^ size) then ok (reverse (little size n)) else err struct_error

unfoldable pub unpack_uint : Bytes → ℕ
unpack_uint bs = from_little (reverse bs)

-- The format `{size}s`: cut or filled with zeros.
unfoldable pub pack_bytes : ℕ → Bytes → Bytes
pack_bytes size bs = take size (bs ++ replicate size 0)

-- The bytes that a format of `size` bytes at `offset` reads.
abbrev pub field_at : ℕ → ℕ → Bytes → Bytes
field_at offset size bs = take size (drop offset bs)
