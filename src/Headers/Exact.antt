-- ===== src/Headers/Exact.antt =====
-- Exactly which headers filter_forward_headers lets through, in terms of the headers alone.
use relay_x.Prelude.{
  [], ◌∷◌, ◌≡◌, ◌≢◌, ◌⊎◌, inl, inr, refl, true, false, not, filter, All, Bool-cases, ||-eq-false,
  All-append, All-append_left, All-append_right,
}
use relay_x.Text.{Text, str}
use relay_x.Text.Equality.{one_of}
use relay_x.Text.Unicode.{Unicode}
use relay_x.Text.Split.{split}
use relay_x.Constants.{hop_by_hop_headers, proxy_only_headers}
use relay_x.Models.{HeaderList}
use relay_x.Headers.{connection_tokens, is_blocked, filter_forward_headers}
use relay_x.Headers.Tokens.{
  IsNoneOf, IsUnnamedBy, one_of-IsNoneOf, one_of-false, IsNoneOf-connection_tokens, All-IsSparedBy,
}

module _ (u : Unicode) where
  -- Neither a hop-by-hop header nor one for the proxy, and named by no option of any Connection
  -- header of the message.
  pub record IsForwardable (message : HeaderList) (h : Text × Text) : Type 0 where
    pub not_hop :
        IsNoneOf
          (str "connection"
            ∷ str "keep-alive"
            ∷ str "proxy-authenticate"
            ∷ str "proxy-authorization"
            ∷ str "te"
            ∷ str "trailer"
            ∷ str "transfer-encoding"
            ∷ str "upgrade"
            ∷ str "content-length"
            ∷ str "proxy-connection"
            ∷ [])
          (u.lower h.0)
    pub not_named :
        All
          (λ (c : Text × Text).
            (u.lower c.0 ≢ str "connection") ⊎ All (IsUnnamedBy u h.0) (split b',' c.1))
          message

  -- The headers that may be forwarded, in their order, and no others.
  pub data Passes (message : HeaderList) : HeaderList → HeaderList → Type 0 where
    end : Passes message [] []
    keep :
        {h : Text × Text} {hs ks : HeaderList}
        → IsForwardable message h
        → Passes message hs ks
        → Passes message (h ∷ hs) (h ∷ ks)
    leave :
        {h : Text × Text} {hs ks : HeaderList}
        → ¬ IsForwardable message h
        → Passes message hs ks
        → Passes message (h ∷ hs) ks

  IsForwardable-of_false :
      (message : HeaderList) (h : Text × Text)
      → is_blocked u (connection_tokens u message) h ≡ false
      → IsForwardable message h
  unfolding is_blocked
  IsForwardable-of_false message h e =
      let (hop, r) = ||-eq-false (one_of (u.lower h.0) hop_by_hop_headers) _ e in
      let (proxy, named) = ||-eq-false (one_of (u.lower h.0) proxy_only_headers) _ r in
      record {
        not_hop =
            All-append (λ t. u.lower h.0 ≢ t) hop_by_hop_headers (str "proxy-connection" ∷ [])
              (one_of-IsNoneOf (u.lower h.0) hop_by_hop_headers hop)
              ((one_of-IsNoneOf (u.lower h.0) proxy_only_headers proxy).0, tt);
        not_named =
            All-IsSparedBy u h.0 message
              (one_of-IsNoneOf (u.lower h.0) (connection_tokens u message) named);
      }

  unblocked_of_IsForwardable :
      (message : HeaderList) (h : Text × Text)
      → IsForwardable message h
      → is_blocked u (connection_tokens u message) h ≡ false
  unfolding is_blocked
  unblocked_of_IsForwardable message h f =
      let hop =
        All-append_left (λ t. u.lower h.0 ≢ t) hop_by_hop_headers (str "proxy-connection" ∷ [])
          f.not_hop in
      let own =
        All-append_right (λ t. u.lower h.0 ≢ t) hop_by_hop_headers (str "proxy-connection" ∷ [])
          f.not_hop in
      rw
        (
          one_of-false (u.lower h.0) hop_by_hop_headers hop,
          one_of-false (u.lower h.0) proxy_only_headers (own.0, (hop.1.1.1.0, (hop.1.1.0, tt))),
          one_of-false (u.lower h.0) (connection_tokens u message)
              (IsNoneOf-connection_tokens u h.0 message f.not_named),
        )
        refl

  filter-Passes :
      (message hs : HeaderList)
      → Passes message hs (filter (λ h. not (is_blocked u (connection_tokens u message) h)) hs)
  filter-Passes message [] = end
  filter-Passes message (h ∷ hs) =
      elim (Bool-cases (is_blocked u (connection_tokens u message) h)) [
        | inr free ↦
            rw free (keep (IsForwardable-of_false message h free) (filter-Passes message hs))
        | inl blocked ↦ rw blocked (leave (not_forwardable blocked) (filter-Passes message hs))
      ]
    where
      not_forwardable :
          is_blocked u (connection_tokens u message) h ≡ true → ¬ IsForwardable message h
      not_forwardable blocked f =
          let free = unblocked_of_IsForwardable message h f in cc (blocked, free)

  -- filter_forward_headers keeps exactly the headers that may be forwarded, in their order: those
  -- whose lower-cased name is none of the nine hop-by-hop names and proxy-connection, and is no
  -- option, stripped and lower-cased, of the comma-separated options of any Connection header of
  -- the message.
  pub filter_forward_headers-Passes : (hs : HeaderList) → Passes hs hs (filter_forward_headers u hs)
  unfolding filter_forward_headers
  filter_forward_headers-Passes hs = filter-Passes hs hs
