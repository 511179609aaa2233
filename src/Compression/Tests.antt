-- ===== src/Compression/Tests.antt =====
-- Compression with the sample library.
use relay_x.Prelude.{◌≡◌, refl, [], ◌∷◌, true}
use relay_x.Errors.{ok}
use relay_x.Compression.{maybe_compress}
use relay_x.Samples.{zstd}

compresses : maybe_compress zstd (1 ∷ 2 ∷ []) true 2 ≡ ok (1 ∷ 2 ∷ [], true)
unfolding maybe_compress
compresses = refl
