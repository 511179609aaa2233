-- ===== src/Compression.antt =====
-- relayx/compression.py: compression above a threshold. zstd is a parameter.
mod Tests
use relay_x.Prelude.{
  ℕ, ◌≤◌, ◌≡◌, Bool, true, false, ◌||◌, not, ltb, length, Option, some, none, if◌then◌else◌, arith,
}
use relay_x.Text.{Bytes}
use relay_x.Errors.{Result, ok, err, compression_error}

-- ZstdCompressor().compress(data) and ZstdDecompressor().decompress(data, max_output_size=...);
-- `none` is any exception.
pub record Zstd : Type 0 where
  pub compress : Bytes → Option Bytes
  pub decompress : Bytes → ℕ → Option Bytes

-- What was compressed is decompressed, where the output size admits it.
pub record IsZstd (z : Zstd) : Type 0 where
  pub decompress-compress :
      (d x : Bytes) (max : ℕ) → z.compress d ≡ some x → length d ≤ max → z.decompress x max ≡ some d

module _ (z : Zstd) where
  unfoldable pub maybe_compress : Bytes → Bool → ℕ → Result (Bytes × Bool)
  maybe_compress bytes enabled threshold =
      if not enabled || ltb (length bytes) threshold
      then ok (bytes, false)
      else elim (z.compress bytes) [ none ↦ err compression_error | some x ↦ ok (x, true) ]

  unfoldable pub maybe_decompress : Bytes → Bool → ℕ → Result Bytes
  maybe_decompress bytes compressed max_size =
      if not compressed
      then (if ltb max_size (length bytes) then err compression_error else ok bytes)
      else elim (z.decompress bytes max_size) [ none ↦ err compression_error | some d ↦ ok d ]

-- Whether or not maybe_compress compressed a payload, maybe_decompress gives it back, if it is
-- within the limit.
pub maybe_decompress-maybe_compress :
    (z : Zstd) (bytes payload : Bytes) (enabled compressed : Bool) (threshold max : ℕ)
    → IsZstd z
    → length bytes ≤ max
    → maybe_compress z bytes enabled threshold ≡ ok (payload, compressed)
    → maybe_decompress z payload compressed max ≡ ok bytes
unfolding maybe_compress maybe_decompress
maybe_decompress-maybe_compress z bytes payload enabled compressed threshold max laws fits h =
    ground (arith, laws.decompress-compress bytes payload max)
