-- ===== src/Errors.antt =====
-- relayx/errors.py, with the exceptions of Python and of the libraries that the code raises or
-- catches, and the result of code that may raise.
use relay_x.Prelude.Int.{ℤ}
use relay_x.Prelude.{ℕ, Bool, true, false, ◌≡◌, refl, ◌⊎◌, inl, inr}

-- The class of a raised exception. `http_exception` carries FastAPI's
-- status code, and `system_exit` the exit status of the process.
pub data Exn : Type 0 where
  relayx_error config_error protocol_error serialization_error compression_error : Exn
  crypto_error authentication_error : Exn
  replay_error replay_detected packet_expired packet_from_future replay_cache_full : Exn
  transport_error upstream_http_error request_too_large response_too_large : Exn
  value_error unicode_error struct_error incomplete_read carrier_error foreign : Exn
  file_exists file_not_found os_error called_process_error : Exn
  http_exception : ℕ → Exn
  system_exit : ℤ → Exn

pub data Result {ℓ} (A : Type ℓ) : Type ℓ where
  ok : A → Result A
  err : Exn → Result A

-- The next step runs on what the first returned; what the first raised is passed on.
infixl 5 ◌>>=◌
abbrev pub ◌>>=◌ {ℓ κ} : {X : Type ℓ} {Y : Type κ} → Result X → (X → Result Y) → Result Y
err raised >>= next = err raised
ok x >>= next = next x

-- In a `do` block, a line that only checks.
infixl 5 ◌>>◌
abbrev pub ◌>>◌ {κ} : {Y : Type κ} → Result (Unit {0}) → Result Y → Result Y
test >> next = test >>= λ passed. next

-- `if bad: raise e`
abbrev pub raise_if : Bool → Exn → Result (Unit {0})
raise_if true e = err e
raise_if false e = ok tt

-- A chain returns only if its first step does, and the second on what that returned.
pub >>=-eq-ok {ℓ κ} :
    {X : Type ℓ} {Y : Type κ} {y : Y} (first : Result X) (next : X → Result Y)
    → (first >>= next) ≡ ok y
    → (x : X) × (first ≡ ok x) × (next x ≡ ok y)
>>=-eq-ok (err raised) next returned = cc
>>=-eq-ok (ok x) next returned = (x, refl, returned)

pub ok-injective {ℓ} : {A : Type ℓ} {a b : A} → ok a ≡ ok b → a ≡ b
ok-injective h = cc

pub raise_if-ok : (b : Bool) (e : Exn) → raise_if b e ≡ ok tt → b ≡ false
raise_if-ok true e h = cc
raise_if-ok false e h = refl

-- What follows a guard that did not raise.
pub guard-eq-ok {ℓ} :
    {B : Type ℓ} (b : Bool) (e : Exn) (f : Unit {0} → Result B) {r : B}
    → (raise_if b e >>= f) ≡ ok r
    → (b ≡ false) × (f tt ≡ ok r)
guard-eq-ok true e f h = cc
guard-eq-ok false e f h = (refl, h)

pub guard-eq-err {ℓ} :
    {B : Type ℓ} (b : Bool) (e : Exn) (f : Unit {0} → Result B) {x : Exn}
    → (raise_if b e >>= f) ≡ err x
    → (x ≡ e) ⊎ (f tt ≡ err x)
guard-eq-err true e f h = inl (cc)
guard-eq-err false e f h = inr h

pub >>=-eq-err {ℓ κ} :
    {A : Type ℓ} {B : Type κ} (m : Result A) (f : A → Result B) {x : Exn}
    → (m >>= f) ≡ err x
    → (m ≡ err x) ⊎ ((a : A) × (m ≡ ok a) × (f a ≡ err x))
>>=-eq-err (ok a) f h = inr (a, refl, h)
>>=-eq-err (err e) f h = inl (cc)

-- Whatever is returned satisfies `P`.
abbrev pub Ensures {ℓ κ} : {A : Type ℓ} → (A → Type κ) → Result A → Type (ℓ ⊔ κ)
Ensures P r = (a : _) → r ≡ ok a → P a

pub Ensures-bind {ℓ κ ι} :
    {A : Type ℓ} {B : Type κ} {P : B → Type ι} (m : Result A) (f : A → Result B)
    → ((a : A) → Ensures P (f a))
    → Ensures P (m >>= f)
Ensures-bind (ok a) f h = h a
Ensures-bind (err e) f h = λ b k. cc

pub Result-cases {ℓ} :
    {A : Type ℓ} (r : Result A) → ((a : A) × (r ≡ ok a)) ⊎ ((e : Exn) × (r ≡ err e))
Result-cases (ok a) = inl (a, refl)
Result-cases (err e) = inr (e, refl)
