-- ===== src/Text/Decimal.antt =====
-- Integers in decimal, as f-strings print them.
use relay_x.Prelude.{
  ℕ, zero, suc, ◌+◌, ◌/◌, ◌%◌, ◌<◌, ◌≡◌, refl, [], ◌∷◌, ◌++◌, Bool, true, false, ltb, ltb→lt, all,
  all-append, all_below, all_below_sound, &&_iff, Bool-cases, inl, inr, arith,
}
use relay_x.Prelude.Int.{ℤ, pos, negsuc}
use relay_x.Text.{Text}

-- One digit for each step; a number has no more digits than its successor says.
unfoldable pub digits : ℕ → ℕ → Text
digits zero n = []
digits (suc fuel) n = elim (ltb n 10) [
  | true ↦ (48 + n) ∷ []
  | false ↦ digits fuel (n / 10) ++ (48 + n % 10) ∷ []
]

-- str(n)
unfoldable pub show_nat : ℕ → Text
show_nat n = digits (suc n) n

unfoldable pub show_int : ℤ → Text
show_int (pos n) = show_nat n
show_int (negsuc n) = b'-' ∷ show_nat (suc n)

-- A test that the digits and the sign pass holds of every character of a number.
module _ (p : ℕ → Bool) (ten : all_below 10 (λ n. p (48 + n)) ≡ true) where
  digit : (n : ℕ) → n < 10 → p (48 + n) ≡ true
  digit n h = all_below_sound 10 (λ k. p (48 + k)) n h ten

  all-digits : (fuel n : ℕ) → all p (digits fuel n) ≡ true
  unfolding digits
  all-digits zero n = refl
  all-digits (suc fuel) n = elim (Bool-cases (ltb n 10)) [
    | inl small ↦
        rw (small, digits) ((&&_iff (p (48 + n)) true).1 (digit n (ltb→lt n 10 small), refl))
    | inr large ↦
        rw (large, digits)
          (all-append p (digits fuel (n / 10)) ((48 + n % 10) ∷ []) (all-digits fuel (n / 10))
            ((&&_iff (p (48 + n % 10)) true).1 (digit (n % 10) (omega arith), refl)))
  ]

  pub all-show_int : (n : ℤ) → p b'-' ≡ true → all p (show_int n) ≡ true
  unfolding show_int show_nat
  all-show_int (pos n) sign = all-digits (suc n) n
  all-show_int (negsuc n) sign =
      (&&_iff (p b'-') (all p (show_nat (suc n)))).1 (sign, all-digits (suc (suc n)) (suc n))
