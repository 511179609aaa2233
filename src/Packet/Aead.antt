-- ===== src/Packet/Aead.antt =====
-- ChaCha20Poly1305 of the package `cryptography`, as crypto/aead.py uses it.
use relay_x.Prelude.{◌+◌, ◌^◌, ◌<◌, ◌≡◌, Option, some, length}
use relay_x.Text.{Bytes}
use relay_x.Errors.{Result, ok}

-- `construct` is ChaCha20Poly1305(key), which may raise; the others are the methods
-- .encrypt(nonce, data, aad) and .decrypt(nonce, data, aad) of its result, where `none` is the
-- exception InvalidTag.
pub record Cipher : Type 0 where
  pub construct : Bytes → Result (Unit {0})
  pub encrypt : Bytes → Bytes → Bytes → Bytes → Result Bytes
  pub decrypt : Bytes → Bytes → Bytes → Bytes → Option Bytes

-- What the package documents of keys of 32 bytes and nonces of 12: encryption succeeds below
-- 2 ^ 31 bytes and adds a tag of 16 bytes; decryption undoes it; and the ciphertext of a plaintext
-- is determined by key, nonce and associated data, so what decrypts is what encryption gives.
pub record IsCipher (c : Cipher) : Type 0 where
  pub constructs : (key : Bytes) → length key ≡ 32 → c.construct key ≡ ok tt
  pub encrypts :
      (key nonce p aad : Bytes)
      → length key ≡ 32
      → length nonce ≡ 12
      → length p < 2 ^ 31
      → (x : Bytes) × (c.encrypt key nonce p aad ≡ ok x)
  pub decrypt-encrypt :
      (key nonce p aad x : Bytes)
      → c.encrypt key nonce p aad ≡ ok x
      → c.decrypt key nonce x aad ≡ some p
  pub encrypt-decrypt :
      (key nonce p aad x : Bytes)
      → c.decrypt key nonce x aad ≡ some p
      → c.encrypt key nonce p aad ≡ ok x
  pub length-encrypt :
      (key nonce p aad x : Bytes) → c.encrypt key nonce p aad ≡ ok x → length x ≡ length p + 16
