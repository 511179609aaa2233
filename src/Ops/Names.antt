-- ===== src/Ops/Names.antt =====
-- Which names reach the service unit.
use relay_x.Prelude.{
  ℕ, [], ◌∷◌, refl, ◌⊎◌, ◌≢◌, All, All-of_all, take, ◌==◌, ◌≤◌, ◌≡◌, Bool, true, false, not, ◌||◌,
  leb, leb→le, all, length, arith, ||-eq-false, &&_iff,
}
use relay_x.Text.{Text, str}
use relay_x.Text.Split.{starts_with}
use relay_x.Errors.{ok, >>=-eq-ok, guard-eq-ok, value_error}
use relay_x.Ops.{
  UnitOptions, is_account_char, is_lower, is_name_char, is_safe_name, is_safe_account,
  validate_service_name, validate_account_name, systemd_unit,
}

-- One of a-z, A-Z and 0-9.
abbrev pub IsAlphanumeric : ℕ → Type 0
IsAlphanumeric c = ((97 ≤ c) × (c ≤ 122)) ⊎ (((65 ≤ c) × (c ≤ 90)) ⊎ ((48 ≤ c) × (c ≤ 57)))

-- One of these, or an underscore, a full stop, an at sign or a dash.
abbrev pub IsNameCharacter : ℕ → Type 0
IsNameCharacter c = IsAlphanumeric c ⊎ ((c ≡ b'_') ⊎ ((c ≡ b'.') ⊎ ((c ≡ b'@') ⊎ (c ≡ b'-'))))

-- One of a-z and 0-9, or an underscore or a dash.
abbrev pub IsAccountCharacter : ℕ → Type 0
IsAccountCharacter c = ((97 ≤ c) × (c ≤ 122)) ⊎ (((48 ≤ c) × (c ≤ 57)) ⊎ ((c ≡ b'_') ⊎ (c ≡ b'-')))

-- A name of letters, digits and "_.@-", of 1 to 64 characters, that no tool takes for an option.
pub record IsServiceName (s : Text) : Type 0 where
  pub chars : All IsNameCharacter s
  pub nonempty : 1 ≤ length s
  pub short : length s ≤ 64
  pub no_option : take 1 s ≢ str "-"

-- A name of at most 32 small letters, digits, underscores and dashes that starts with a letter or
-- an underscore.
pub record IsAccountName (s : Text) : Type 0 where
  pub first : (c : ℕ) × (rest : Text) × (s ≡ c ∷ rest) × (((97 ≤ c) × (c ≤ 122)) ⊎ (c ≡ b'_'))
  pub chars : All IsAccountCharacter s
  pub short : length s ≤ 32

not-false : (b : Bool) → not b ≡ false → b ≡ true
not-false b h = ground arith

name_char_lem : (c : ℕ) → is_name_char c ≡ true → IsNameCharacter c
name_char_lem c h = ground (arith, h)

account_char_lem : (c : ℕ) → is_account_char c ≡ true → IsAccountCharacter c
account_char_lem c h = ground (arith, h)

no_dash : (s : Text) → starts_with (str "-") s ≡ false → take 1 s ≢ str "-"
unfolding starts_with
no_dash [] h e = cc
no_dash (c ∷ s) h e = ground (arith, h, e)

service_name_lem : (s t : Text) → validate_service_name s ≡ ok t → IsServiceName s
unfolding validate_service_name
service_name_lem s t h =
    let (g, _) =
      guard-eq-ok (not (is_safe_name s) || starts_with (str "-") s) value_error (λ _. ok s) h in
    let (a, b) = ||-eq-false (not (is_safe_name s)) (starts_with (str "-") s) g in
    let (c, r) = (&&_iff (all is_name_char s) _).0 (not-false (is_safe_name s) a) in
    let (l, m) = (&&_iff (leb 1 (length s)) (leb (length s) 64)).0 r in
    record {
      chars = All-of_all name_char_lem s c;
      nonempty = leb→le 1 (length s) l;
      short = leb→le (length s) 64 m;
      no_option = no_dash s b;
    }

is_safe_account-IsAccountName : (s : Text) → is_safe_account s ≡ true → IsAccountName s
is_safe_account-IsAccountName [] h = cc
is_safe_account-IsAccountName (c ∷ s) h =
    let (first, r) = (&&_iff (is_lower c || c == b'_') _).0 h in
    let (others, l) = (&&_iff (all is_account_char s) (leb (length s) 31)).0 r in
    record {
      first = (c, s, refl, ground (arith, first));
      chars = (ground (arith, first), All-of_all account_char_lem s others);
      short = omega (arith, leb→le (length s) 31 l);
    }

account_lem : (s t : Text) → validate_account_name s ≡ ok t → IsAccountName s
unfolding validate_account_name
account_lem s t h = is_safe_account-IsAccountName s (
    not-false (is_safe_account s)
      (guard-eq-ok (not (is_safe_account s)) value_error (λ _. ok s) h).0)

-- A service unit is only made for a service name of 1 to 64 ASCII letters, digits and characters
-- of "_.@-" that does not start with a dash, and for a user and a group of at most 32 small ASCII
-- letters, digits, underscores and dashes that start with a letter or an underscore.
pub systemd_unit-IsServiceName :
    (o : UnitOptions) (exec_start unit : Text)
    → systemd_unit o exec_start ≡ ok unit
    → IsServiceName o.service_name × IsAccountName o.user × IsAccountName o.group
unfolding systemd_unit
systemd_unit-IsServiceName o exec_start unit h =
    let (n, e1, h1) = >>=-eq-ok (validate_service_name o.service_name) _ h in
    let (u, e2, h2) = >>=-eq-ok (validate_account_name o.user) _ h1 in
    let (g, e3, h3) = >>=-eq-ok (validate_account_name o.group) _ h2 in
    (service_name_lem o.service_name n e1, account_lem o.user u e2, account_lem o.group g e3)
