-- ===== src/Config/Valid.antt =====
-- What settings hold that were accepted.
use relay_x.Prelude.{
  ℕ, ◌≤◌, ◌<◌, ◌⊎◌, inl, inr, Bool-cases, leb, ◌==◌, ◌≡◌, ◌≢◌, List, [], ◌∷◌, Bool, true, false,
  not, ◌||◌, any, All, arith, ||-eq-false,
}
use relay_x.Prelude.Int.{ℤ, pos, negsuc, ◌≤ℤ◌}
use mathlib.Core.Path.{subst}
use relay_x.Text.{Text, str}
use relay_x.Text.Equality.{text_eq, text_eq_refl, eq_of_text_eq, one_of}
use relay_x.Text.Unicode.{Unicode}
use relay_x.Errors.{ok, >>=-eq-ok, guard-eq-ok, ok-injective, value_error}
use relay_x.Models.{is_empty}
use relay_x.Models.Headers.{is_empty-false}
use relay_x.Config.{
  RelaySettings, is_invalid_port, is_not_positive, is_negative, is_not_positive_float,
  positive_fields, non_negative_fields, log_levels, valid_log_level, validate_settings,
}

-- Of the bits of a double: neither of the two zeros, no negative number and not minus infinity. What
-- is left are the positive numbers and the NaNs.
abbrev pub IsPositiveOrNan : ℕ → Type 0
IsPositiveOrNan bits =
    ((1 ≤ bits) × (bits < 0x8000_0000_0000_0000)) ⊎ (0xfff0_0000_0000_0000 < bits)

-- Secrets that are there and differ, ports that exist, limits and durations that admit something.
pub record IsUsable (s : RelaySettings) : Type 0 where
  pub token : s.auth_token ≢ []
  pub key : s.encryption_key ≢ []
  pub separate : s.auth_token ≢ s.encryption_key
  pub proxy_port : (pos 1 ≤ℤ s.proxy_port) × (s.proxy_port ≤ℤ pos 65535)
  pub server_port : (pos 1 ≤ℤ s.server_port) × (s.server_port ≤ℤ pos 65535)
  pub replay_window : pos 1 ≤ℤ s.replay_window_seconds
  pub replay_cache : pos 1 ≤ℤ s.replay_cache_max_entries
  pub decompressed : pos 1 ≤ℤ s.max_decompressed_bytes
  pub carrier_body : pos 1 ≤ℤ s.max_carrier_body_bytes
  pub request_body : pos 1 ≤ℤ s.max_request_body_bytes
  pub response_body : pos 1 ≤ℤ s.max_response_body_bytes
  pub header : pos 1 ≤ℤ s.max_header_bytes
  pub skew : pos 0 ≤ℤ s.allowed_clock_skew_seconds
  pub compression : pos 0 ≤ℤ s.compression_threshold_bytes
  pub timeout : IsPositiveOrNan s.timeout_seconds
  pub level :
      (s.log_level ≡ str "DEBUG")
      ⊎ ((s.log_level ≡ str "INFO")
          ⊎ ((s.log_level ≡ str "WARNING")
              ⊎ ((s.log_level ≡ str "ERROR") ⊎ (s.log_level ≡ str "CRITICAL"))))

port_lem : (p : ℤ) → is_invalid_port p ≡ false → (pos 1 ≤ℤ p) × (p ≤ℤ pos 65535)
port_lem (pos n) h = ground arith
port_lem (negsuc n) h = ground arith

positive_lem : (xs : List ℤ) → any is_not_positive xs ≡ false → All (λ n. pos 1 ≤ℤ n) xs
positive_lem [] h = tt
positive_lem (x ∷ xs) h =
    let (a, b) = ||-eq-false (is_not_positive x) (any is_not_positive xs) h in
    (one x a, positive_lem xs b)
  where
    one : (x : ℤ) → is_not_positive x ≡ false → pos 1 ≤ℤ x
    one (pos n) h = ground arith
    one (negsuc n) h = ground arith

non_negative_lem : (xs : List ℤ) → any is_negative xs ≡ false → All (λ n. pos 0 ≤ℤ n) xs
non_negative_lem [] h = tt
non_negative_lem (x ∷ xs) h =
    let (a, b) = ||-eq-false (is_negative x) (any is_negative xs) h in
    (one x a, non_negative_lem xs b)
  where
    one : (x : ℤ) → is_negative x ≡ false → pos 0 ≤ℤ x
    one (pos n) h = ground arith
    one (negsuc n) h = ground arith

timeout_lem : (bits : ℕ) → is_not_positive_float bits ≡ false → IsPositiveOrNan bits
timeout_lem bits h =
    let (a, b) = ||-eq-false (bits == 0) _ h in
    elim (Bool-cases (leb 0x8000_0000_0000_0000 bits)) [
      | inl large ↦ inr (ground (arith, b, large))
      | inr small ↦ inl (ground (arith, a), ground (arith, small))
    ]

level_cases :
    (level : Text)
    → one_of level log_levels ≡ true
    → (level ≡ str "DEBUG")
      ⊎ ((level ≡ str "INFO")
          ⊎ ((level ≡ str "WARNING") ⊎ ((level ≡ str "ERROR") ⊎ (level ≡ str "CRITICAL"))))
unfolding one_of
level_cases level h = elim (Bool-cases (text_eq level (str "DEBUG"))) [
  | inl e ↦ inl (eq_of_text_eq level _ e)
  | inr n ↦ inr (elim (Bool-cases (text_eq level (str "INFO"))) [
    | inl e ↦ inl (eq_of_text_eq level _ e)
    | inr n_info ↦ inr (elim (Bool-cases (text_eq level (str "WARNING"))) [
      | inl e ↦ inl (eq_of_text_eq level _ e)
      | inr n_warning ↦ inr (elim (Bool-cases (text_eq level (str "ERROR"))) [
        | inl e ↦ inl (eq_of_text_eq level _ e)
        | inr n_error ↦ inr (
            eq_of_text_eq level (str "CRITICAL") (ground (arith, h, n, n_info, n_warning, n_error)))
      ])
    ])
  ])
]

level_lem :
    (u : Unicode) (value level : Text)
    → valid_log_level u value ≡ ok level
    → one_of level log_levels ≡ true
unfolding valid_log_level
level_lem u value level h =
    let (g, h1) =
      guard-eq-ok (not (one_of (u.upper value) log_levels)) value_error (λ _. ok (u.upper value))
        h in
    subst (λ l. one_of l log_levels ≡ true) (ok-injective h1) (not_false _ g)
  where
    not_false : (b : Bool) → not b ≡ false → b ≡ true
    not_false b h = ground arith

-- Settings that are accepted are usable: both secrets are there and differ, both ports lie between
-- 1 and 65535, the replay window, the size of the replay cache and the limits on decompressed,
-- carrier, request and response bodies and on headers are positive, the clock skew and the
-- compression threshold are not negative, the timeout is a positive double or a NaN, and the log
-- level is DEBUG, INFO, WARNING, ERROR or CRITICAL.
pub validate_settings-IsUsable :
    (u : Unicode) (s t : RelaySettings) → validate_settings u s ≡ ok t → IsUsable t
unfolding validate_settings
validate_settings-IsUsable u s t h =
    let (g1, h1) =
      guard-eq-ok (is_empty s.auth_token || is_empty s.encryption_key) value_error _ h in
    let (g2, h2) =
      guard-eq-ok (is_invalid_port s.proxy_port || is_invalid_port s.server_port) value_error _
        h1 in
    let (g3, h3) = guard-eq-ok (any is_not_positive (positive_fields s)) value_error _ h2 in
    let (g4, h4) = guard-eq-ok (any is_negative (non_negative_fields s)) value_error _ h3 in
    let (level, e5, h5) = >>=-eq-ok (valid_log_level u s.log_level) _ h4 in
    let (g6, h6) = guard-eq-ok (is_not_positive_float s.timeout_seconds) value_error _ h5 in
    let (g7, h7) = guard-eq-ok (text_eq s.auth_token s.encryption_key) value_error _ h6 in
    let (a, b) = ||-eq-false (is_empty s.auth_token) (is_empty s.encryption_key) g1 in
    let (p, q) = ||-eq-false (is_invalid_port s.proxy_port) (is_invalid_port s.server_port) g2 in
    let ps = positive_lem (positive_fields s) g3 in
    let ns = non_negative_lem (non_negative_fields s) g4 in
    subst IsUsable (ok-injective h7) (record {
      token = is_empty-false s.auth_token a;
      key = is_empty-false s.encryption_key b;
      separate = differ s.auth_token s.encryption_key g7;
      proxy_port = port_lem s.proxy_port p;
      server_port = port_lem s.server_port q;
      replay_window = ps.0;
      replay_cache = ps.1.0;
      decompressed = ps.1.1.0;
      carrier_body = ps.1.1.1.0;
      request_body = ps.1.1.1.1.0;
      response_body = ps.1.1.1.1.1.0;
      header = ps.1.1.1.1.1.1.0;
      skew = ns.0;
      compression = ns.1.0;
      timeout = timeout_lem s.timeout_seconds g6;
      level = level_cases level (level_lem u s.log_level level e5);
    })
  where
    differ : (a b : Text) → text_eq a b ≡ false → a ≢ b
    differ a b h e =
        let same : text_eq a b ≡ true = rw e (text_eq_refl b) in ground (arith, h, same)
