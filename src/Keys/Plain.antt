-- ===== src/Keys/Plain.antt =====
-- Which characters encoded keys and tokens are made of.
use relay_x.Prelude.{
  ℕ, ◌+◌, ◌*◌, ◌/◌, ◌%◌, ◌<◌, ◌≡◌, refl, ap, ◌∙◌, [], ◌∷◌, map, Bool, true, false, not, ◌&&◌, all,
  All, &&_iff, all_below, all_below_sound, false_of_not, if◌then◌else◌, arith,
}
use relay_x.Text.{Text, Bytes}
use relay_x.Text.Split.{rstrip}
use relay_x.Text.Strip.{rstrip_kept}
use relay_x.Models.{is_empty}
use relay_x.Keys.Base64.{letter, is_pad, urlsafe, b64encode, token_urlsafe}

-- A test that the letters and the pad pass.
pub record Accepts (p : ℕ → Bool) : Type 0 where
  pub letters : all_below 64 (λ n. p (letter n)) ≡ true
  pub pad : p b'=' ≡ true

module _ (p : ℕ → Bool) (a : Accepts p) where
  accepted : (n : ℕ) → n < 64 → p (letter n) ≡ true
  accepted n h = all_below_sound 64 (λ k. p (letter k)) n h a.letters

  pub all-b64encode : (bytes : Bytes) → All (λ b. b < 256) bytes → all p (b64encode bytes) ≡ true
  unfolding b64encode
  all-b64encode [] h = refl
  all-b64encode (x ∷ []) (hx, h) =
      rw (accepted (x / 4) (omega arith), accepted (x % 4 * 16) (omega arith), a.pad) refl
  all-b64encode (x ∷ y ∷ []) (hx, (hy, h)) =
      rw
        (
          accepted (x / 4) (omega arith),
          accepted (x % 4 * 16 + y / 16) (omega arith),
          accepted (y % 16 * 4) (omega arith),
          a.pad,
        )
        refl
  all-b64encode (x ∷ y ∷ z ∷ rest) (hx, (hy, (hz, h))) =
      rw
        (
          accepted (x / 4) (omega arith),
          accepted (x % 4 * 16 + y / 16) (omega arith),
          accepted (y % 16 * 4 + z / 64) (omega arith),
          accepted (z % 64) (omega arith),
        )
        (all-b64encode rest h)

all-map : (p : ℕ → Bool) (f : ℕ → ℕ) (s : Text) → all p (map f s) ≡ all (λ c. p (f c)) s
all-map p f [] = refl
all-map p f (c ∷ s) = ap (λ b. p (f c) && b) (all-map p f s)

all-rstrip : (p q : ℕ → Bool) (s : Text) → all p s ≡ true → all p (rstrip q s) ≡ true
unfolding rstrip
all-rstrip p q [] h = refl
all-rstrip p q (c ∷ s) h =
    let (first, others) = (&&_iff (p c) (all p s)).0 h in
    from first (rstrip q s) (all-rstrip p q s others) (q c)
  where
    from :
        p c ≡ true
        → (r : Text) → all p r ≡ true
        → (b : Bool) → all p (elim r [ [] ↦ if b then [] else c ∷ [] | d ∷ t ↦ c ∷ d ∷ t ]) ≡ true
    from first [] k true = refl
    from first [] k false = rw first refl
    from first (d ∷ t) k b = (&&_iff (p c) (all p (d ∷ t))).1 (first, k)

pub all-token_urlsafe :
    (p : ℕ → Bool) (bytes : Bytes)
    → Accepts (λ c. p (urlsafe c))
    → All (λ b. b < 256) bytes
    → all p (token_urlsafe bytes) ≡ true
unfolding token_urlsafe
all-token_urlsafe p bytes a h =
    all-rstrip p is_pad (map urlsafe (b64encode bytes))
      (all-map p urlsafe (b64encode bytes) ∙ all-b64encode (λ c. p (urlsafe c)) a bytes h)

-- What is encoded of some bytes is not empty.
pub is_empty-b64encode : (b : ℕ) (bytes : Bytes) → is_empty (b64encode (b ∷ bytes)) ≡ false
unfolding b64encode
is_empty-b64encode a [] = refl
is_empty-b64encode a (b ∷ []) = refl
is_empty-b64encode a (b ∷ c ∷ rest) = refl

urlsafe_first :
    (b : ℕ) (bytes : Bytes)
    → b < 256
    → (s : Text) × (map urlsafe (b64encode (b ∷ bytes)) ≡ urlsafe (letter (b / 4)) ∷ s)
unfolding b64encode
urlsafe_first a [] h = (_, refl)
urlsafe_first a (b ∷ []) h = (_, refl)
urlsafe_first a (b ∷ c ∷ rest) h = (_, refl)

urlsafe_no_pad : (n : ℕ) → n < 64 → is_pad (urlsafe (letter n)) ≡ false
unfolding all_below letter
urlsafe_no_pad n h =
    false_of_not (is_pad (urlsafe (letter n)))
      (all_below_sound 64 (λ k. not (is_pad (urlsafe (letter k)))) n h refl)

pub is_empty-token_urlsafe :
    (b : ℕ) (bytes : Bytes) → b < 256 → is_empty (token_urlsafe (b ∷ bytes)) ≡ false
unfolding token_urlsafe
is_empty-token_urlsafe b bytes h =
    let (s, e) = urlsafe_first b bytes h in
    let first = urlsafe_no_pad (b / 4) (omega arith) in
    ap (λ t. is_empty (rstrip is_pad t)) e
    ∙ ap is_empty (rstrip_kept is_pad (urlsafe (letter (b / 4))) s first)
