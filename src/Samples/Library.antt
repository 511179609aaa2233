-- ===== src/Samples/Library.antt =====
-- The libraries, a key and what is drawn.
use relay_x.Prelude.{
  ℕ, ◌-◌, ◌≡◌, refl, sym, ap, ap₂, ◌∙◌, [], ◌∷◌, ◌++◌, true, ◌&&◌, not, ◌==◌, leb, length, map, all,
  ltb, take, drop, replicate, some, none, if◌then◌else◌, arith, take-append-drop, Bool-cases, inl,
  inr, All-below,
}
use relay_x.Text.{Bytes}
use relay_x.Text.Equality.{text_eq, eq_of_text_eq}
use relay_x.Text.Unicode.{Unicode, IsUnicode, ascii_upper, ascii_lower}
use relay_x.Errors.{ok, raise_if, value_error, ok-injective}
use relay_x.Struct.{IsBytes}
use relay_x.Packet.Aead.{Cipher, IsCipher}
use relay_x.Compression.{Zstd, IsZstd}
use relay_x.Pipeline.{Libraries, IsLibraries, Limits, Draw}
use relay_x.Samples.Table.{msgpack, msgpack-IsMsgpack}

abbrev pub unicode : Unicode
unicode = record {
  upper = map ascii_upper;
  lower = map ascii_lower;
  decimal = λ c. if leb b'0' c && leb c b'9' then some (c - 48) else none;
}

pub IsBytes_of_all : (bs : Bytes) → all (λ b. ltb b 256) bs ≡ true → IsBytes bs
IsBytes_of_all = All-below 256

abbrev tag : Bytes
tag = replicate 16 7

-- A cipher that adds a constant tag in front of the plaintext.
abbrev pub cipher : Cipher
cipher = record {
  construct = λ key. raise_if (not (length key == 32)) value_error;
  encrypt = λ key nonce p aad. ok (tag ++ p);
  decrypt = λ key nonce x aad. if text_eq (take 16 x) tag then some (drop 16 x) else none;
}

untag :
    (x p : Bytes)
    → (if text_eq (take 16 x) tag then some (drop 16 x) else none) ≡ some p
    → tag ++ p ≡ x
untag x p h = elim (Bool-cases (text_eq (take 16 x) tag)) [
  | inl e ↦
      let same : drop 16 x ≡ p = ground arith in
      ap₂ (λ (a b : Bytes). a ++ b) (sym (eq_of_text_eq (take 16 x) tag e)) (sym same)
      ∙ take-append-drop 16 x
  | inr n ↦ ground arith
]

pub cipher-IsCipher : IsCipher cipher
unfolding text_eq
cipher-IsCipher = record {
  constructs = λ key h. rw h;
  encrypts = λ key nonce p aad k n l. (tag ++ p, refl);
  decrypt-encrypt = λ key nonce p aad x h. (rw (← ok-injective h));
  encrypt-decrypt = λ key nonce p aad x h. ap ok (untag x p h);
  length-encrypt = λ key nonce p aad x h. (rw (← ok-injective h) (omega arith));
}

abbrev pub zstd : Zstd
zstd = record {
  compress = λ d. some d;
  decompress = λ d max. if leb (length d) max then some d else none;
}

pub zstd-IsZstd : IsZstd zstd
zstd-IsZstd = record { decompress-compress = λ d x max h fits. ground arith }

abbrev pub libraries : Libraries
libraries = record { unicode = unicode; cipher = cipher; msgpack = msgpack; zstd = zstd }

pub libraries-IsLibraries : IsLibraries libraries
libraries-IsLibraries = record {
  cipher_laws = cipher-IsCipher;
  msgpack_laws = msgpack-IsMsgpack;
  zstd_laws = zstd-IsZstd;
}

abbrev pub key : Bytes
key = replicate 32 1

abbrev pub nonce : Bytes
nonce = replicate 16 2

abbrev pub aead_nonce : Bytes
aead_nonce = replicate 12 3

abbrev pub draw : Draw
draw = record { timestamp_ms = 1000; nonce_id = nonce; aead_nonce = aead_nonce }

abbrev pub limits : Limits
limits = record {
  max_ciphertext_bytes = 1000;
  max_decompressed_bytes = 1000;
  max_request_body_bytes = 100;
  max_response_body_bytes = 100;
}

-- The packet of a payload of one byte, for a type and flags.
abbrev pub packet_for : ℕ → ℕ → ℕ → Bytes
packet_for t flags payload =
    82
    ∷ 76
    ∷ 88
    ∷ 49
    ∷ 1
    ∷ t
    ∷ flags
    ∷ 0
    ∷ 0
    ∷ 0
    ∷ 0
    ∷ 0
    ∷ 0
    ∷ 0
    ∷ 3
    ∷ 232
    ∷ (nonce ++ (aead_nonce ++ (0 ∷ 0 ∷ 0 ∷ 17 ∷ (tag ++ (payload ∷ [])))))

abbrev pub request_packet : Bytes
request_packet = packet_for 1 1 1

abbrev pub error_packet : Bytes
error_packet = packet_for 3 1 2

-- What the relay answers to the sample request with the sample response.
abbrev pub response_packet : Bytes
response_packet = packet_for 2 1 3

pub unicode-IsUnicode : IsUnicode unicode
unicode-IsUnicode = record {
  upper_ascii = λ s h. refl;
  lower_ascii = λ s h. refl;
  decimal_ascii = λ c h. refl;
}
