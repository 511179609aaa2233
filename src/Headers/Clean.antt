-- ===== src/Headers/Clean.antt =====
-- What filter_forward_headers lets through.
use relay_x.Prelude.{
  List, [], ◌∷◌, ◌≡◌, refl, ap, Bool, true, false, not, filter, All, arith, Bool-cases, inl, inr,
  ||-eq-false,
}
use relay_x.Text.{Text, str}
use relay_x.Text.Equality.{text_eq, one_of}
use relay_x.Text.Unicode.{Unicode}
use relay_x.Constants.{hop_by_hop_headers, proxy_only_headers}
use relay_x.Errors.{ok}
use relay_x.Models.{HeaderList, validate_header_list}
use relay_x.Models.Headers.{IsHeader, validate_header_list_iff}
use relay_x.Headers.{connection_tokens, is_blocked, filter_forward_headers}

module _ {ℓ} {A : Type ℓ} where
  All-filter_self : (p : A → Bool) (xs : List A) → All (λ x. p x ≡ true) (filter p xs)
  All-filter_self p [] = tt
  All-filter_self p (x ∷ xs) = elim (Bool-cases (p x)) [
    | inl kept ↦ rw kept (kept, All-filter_self p xs)
    | inr gone ↦ rw gone (All-filter_self p xs)
  ]

  filter-All : (p : A → Bool) (xs : List A) → All (λ x. p x ≡ true) xs → filter p xs ≡ xs
  filter-All p [] h = refl
  filter-All p (x ∷ xs) (h, hs) = rw h (ap (λ t. x ∷ t) (filter-All p xs hs))

module _ {ℓ κ ι} {A : Type ℓ} {P : A → Type κ} {Q : A → Type ι} where
  All-map : ((x : A) → P x → Q x) → (xs : List A) → All P xs → All Q xs
  All-map f [] h = tt
  All-map f (x ∷ xs) (h, hs) = (f x h, All-map f xs hs)

module _ {ℓ κ} {A : Type ℓ} (P : A → Type κ) where
  All-filter : (p : A → Bool) (xs : List A) → All P xs → All P (filter p xs)
  All-filter p [] h = tt
  All-filter p (x ∷ xs) (h, hs) = elim (Bool-cases (p x)) [
    | inl kept ↦ rw kept (h, All-filter p xs hs)
    | inr gone ↦ rw gone (All-filter p xs hs)
  ]

module _ (u : Unicode) where
  -- Not a hop-by-hop header, not for the proxy alone, and not named by the tokens.
  pub record IsUnblocked (tokens : List Text) (h : Text × Text) : Type 0 where
    pub not_hop : one_of (u.lower h.0) hop_by_hop_headers ≡ false
    pub not_proxy : one_of (u.lower h.0) proxy_only_headers ≡ false
    pub not_named : one_of (u.lower h.0) tokens ≡ false

  IsUnblocked-of_not :
      (tokens : List Text) (h : Text × Text)
      → not (is_blocked u tokens h) ≡ true
      → IsUnblocked tokens h
  unfolding is_blocked
  IsUnblocked-of_not tokens h e =
      let (a, r) = ||-eq-false (one_of (u.lower h.0) hop_by_hop_headers) _ (not_true _ e) in
      let (b, c) =
        ||-eq-false (one_of (u.lower h.0) proxy_only_headers) (one_of (u.lower h.0) tokens) r in
      record { not_hop = a; not_proxy = b; not_named = c }
    where
      not_true : (x : Bool) → not x ≡ true → x ≡ false
      not_true x e = ground arith

  -- Every header that filter_forward_headers lets through has a name that is no hop-by-hop name,
  -- no proxy name, and none of the names that the Connection headers of the message list.
  pub filter_forward_headers-clean :
      (hs : HeaderList) → All (IsUnblocked (connection_tokens u hs)) (filter_forward_headers u hs)
  unfolding filter_forward_headers
  filter_forward_headers-clean hs =
      All-map (IsUnblocked-of_not (connection_tokens u hs)) _
        (All-filter_self (λ h. not (is_blocked u (connection_tokens u hs) h)) hs)

  not_connection :
      (name : Text)
      → one_of name hop_by_hop_headers ≡ false
      → text_eq name (str "connection") ≡ false
  unfolding one_of
  not_connection name h = (||-eq-false (text_eq name (str "connection")) _ h).0

  tokens_of_clean :
      (tokens : List Text) (hs : HeaderList)
      → All (IsUnblocked tokens) hs
      → connection_tokens u hs ≡ []
  unfolding connection_tokens
  tokens_of_clean tokens [] h = refl
  tokens_of_clean tokens ((name, value) ∷ rest) (h, hs) =
      rw (not_connection (u.lower name) h.not_hop) (tokens_of_clean tokens rest hs)

  kept :
      (tokens : List Text) (h : Text × Text) → IsUnblocked tokens h → not (is_blocked u [] h) ≡ true
  unfolding is_blocked one_of
  kept tokens h f = rw (f.not_hop, f.not_proxy)

  -- Filtering headers that were filtered changes nothing.
  pub filter_forward_headers_idempotent :
      (hs : HeaderList)
      → filter_forward_headers u (filter_forward_headers u hs) ≡ filter_forward_headers u hs
  unfolding filter_forward_headers
  filter_forward_headers_idempotent hs =
      let clean = filter_forward_headers-clean hs in
      rw (tokens_of_clean (connection_tokens u hs) _ clean) (
        filter-All (λ h. not (is_blocked u [] h)) _
          (All-map (kept (connection_tokens u hs)) _ clean))

  -- Filtering keeps a valid header list valid.
  pub filter_forward_headers-valid :
      (hs : HeaderList)
      → validate_header_list hs ≡ ok tt
      → validate_header_list (filter_forward_headers u hs) ≡ ok tt
  unfolding filter_forward_headers
  filter_forward_headers-valid hs h = (validate_header_list_iff _).1 (
      All-filter IsHeader (λ x. not (is_blocked u (connection_tokens u hs) x)) hs
        ((validate_header_list_iff hs).0 h))
