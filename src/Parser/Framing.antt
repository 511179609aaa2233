-- ===== src/Parser/Framing.antt =====
-- What the headers of a parsed request say of its body and its host.
use relay_x.Prelude.{
  ℕ, ◌⊎◌, ◌≢◌, refl, true, ◌∷◌, All, filter, ||-eq-false, ◌≡◌, sym, ap, [], false, not, any, arith,
  inl, inr,
}
use relay_x.Prelude.Int.{ℤ, pos_part}
use relay_x.Text.{Text, str}
use relay_x.Text.Equality.{text_eq, text_eq_refl}
use relay_x.Text.Unicode.{Unicode}
use relay_x.Errors.{ok, guard-eq-ok, ok-injective, protocol_error}
use relay_x.Models.{HeaderList}
use relay_x.Parser.{
  is_named, content_length, content_length_of, only_value, is_decimal, parse_int,
  single_host_header,
}

module _ (u : Unicode) where
  -- The headers of that name, however it is written.
  abbrev pub named : Text → HeaderList → HeaderList
  named name headers = filter (λ h. text_eq (u.lower h.0) name) headers

  -- What the Content-Length headers announce: nothing if there is none; else there is just one, of
  -- decimal digits, and it is the number they write.
  abbrev pub Announces : HeaderList → ℕ → Type 0
  Announces headers size =
      ((named (str "content-length") headers ≡ []) × (size ≡ 0))
      ⊎ ((name : Text) × (value : Text) × (named (str "content-length") headers
            ≡ (name, value) ∷ [])
          × (is_decimal u value ≡ true)
          × ((n : ℤ) × (parse_int u value ≡ ok n) × (size ≡ pos_part n)))

  content_length_of-Announces :
      (hs : HeaderList) (size : ℤ)
      → content_length_of u hs ≡ ok size
      → ((hs ≡ []) × (pos_part size ≡ 0))
        ⊎ ((name : Text) × (value : Text) × (hs ≡ (name, value) ∷ [])
            × (is_decimal u value ≡ true)
            × ((n : ℤ) × (parse_int u value ≡ ok n) × (pos_part size ≡ pos_part n)))
  content_length_of-Announces [] size h = inl (refl, ap pos_part (sym (ok-injective h)))
  content_length_of-Announces ((name, value) ∷ []) size h =
      let (decimal, h1) = guard-eq-ok (not (is_decimal u value)) protocol_error _ h in
      inr (name, value, refl, ground (arith, decimal), (size, h1, refl))
  content_length_of-Announces (a ∷ b ∷ hs) size h = cc

  pub content_length-Announces :
      (headers : HeaderList) (size : ℤ)
      → content_length u headers ≡ ok size
      → Announces headers (pos_part size)
  unfolding content_length
  content_length-Announces headers size h = content_length_of-Announces _ size h

  -- There is one Host header.
  abbrev pub HasOneHost : HeaderList → Type 0
  HasOneHost headers =
      (name : Text) × (host : Text) × (named (str "host") headers ≡ (name, host) ∷ [])

  only_value-one :
      (hs : HeaderList) (value : Text)
      → only_value u hs ≡ ok value
      → (name : Text) × (host : Text) × (hs ≡ (name, host) ∷ [])
  only_value-one [] value h = cc
  only_value-one ((name, host) ∷ []) value h = (name, host, refl)
  only_value-one (a ∷ b ∷ hs) value h = cc

  pub single_host_header-HasOneHost :
      (headers : HeaderList) (host : Text)
      → single_host_header u headers ≡ ok host
      → HasOneHost headers
  unfolding single_host_header
  single_host_header-HasOneHost headers host h = only_value-one _ host h

  pub no_chunked :
      (hs : HeaderList)
      → any (is_named u (str "transfer-encoding")) hs ≡ false
      → All (λ (h : Text × Text). u.lower h.0 ≢ str "transfer-encoding") hs
  no_chunked [] h = tt
  no_chunked ((name, value) ∷ hs) h =
      let (first, others) = ||-eq-false (is_named u (str "transfer-encoding") (name, value)) _ h in
      (
        λ e.
            let same : text_eq (u.lower name) (str "transfer-encoding") ≡ true =
              rw e (text_eq_refl (str "transfer-encoding")) in
            ground (arith, first, same),
        no_chunked hs others,
      )
