-- ===== src/Logging/Records.antt =====
-- About the characters of a log record.
use relay_x.Prelude.{
  ℕ, ◌+◌, ◌-◌, ◌/◌, ◌%◌, ◌<◌, ◌≡◌, refl, [], ◌∷◌, Bool, true, false, ◌&&◌, ◌==◌, ltb, leb, all,
  all-append, &&_iff, all_below, all_below_sound, if◌then◌else◌, arith,
}
use relay_x.Prelude.Int.{ℤ}
use relay_x.Text.{Text}
use relay_x.Text.Unicode.{Unicode}
use relay_x.Text.Decimal.{show_int, all-show_int}
use relay_x.Logging.Json.{
  Value, string, integer, float, boolean, null, Dict, hex_digit, unicode_escape, escape, escape_all,
  quoted, sort_items, dump_value, dump_item, dump_items, dumps,
}
use relay_x.Logging.{LogRecord, payload, format}

-- Printable ASCII, which ends no line.
abbrev pub is_printable : ℕ → Bool
is_printable c = leb 32 c && leb c 126

abbrev pub is_print : Text → Bool
is_print = all is_printable

if_print :
    (b : Bool) (s t : Text)
    → (b ≡ true → is_print s ≡ true)
    → (b ≡ false → is_print t ≡ true)
    → is_print (if b then s else t) ≡ true
if_print true s t h k = h refl
if_print false s t h k = k refl

hex_digit_print : (n : ℕ) → n < 16 → is_printable (hex_digit n) ≡ true
unfolding all_below hex_digit
hex_digit_print n h = all_below_sound 16 (λ k. is_printable (hex_digit k)) n h refl

unicode_escape_print : (c : ℕ) → is_print (unicode_escape c) ≡ true
unicode_escape_print c =
    rw
      (
        hex_digit_print (c / 4096 % 16) (omega arith),
        hex_digit_print (c / 256 % 16) (omega arith),
        hex_digit_print (c / 16 % 16) (omega arith),
        hex_digit_print (c % 16) (omega arith),
      )
      refl

escape_print : (c : ℕ) → is_print (escape c) ≡ true
unfolding escape
escape_print c =
    if_print (c == b'"') _ _ (λ _. refl)
      (λ _.
        if_print (c == 92) _ _ (λ _. refl)
          (λ _.
            if_print (is_printable c) (c ∷ []) _ (λ e. (&&_iff (is_printable c) true).1 (e, refl))
              (λ _.
                if_print (c == 10) _ _ (λ _. refl)
                  (λ _.
                    if_print (c == 13) _ _ (λ _. refl)
                      (λ _.
                        if_print (c == 9) _ _ (λ _. refl)
                          (λ _.
                            if_print (c == 12) _ _ (λ _. refl)
                              (λ _.
                                if_print (c == 8) _ _ (λ _. refl)
                                  (λ _.
                                    if_print (ltb c 65536) (unicode_escape c) _
                                      (λ _. unicode_escape_print c)
                                      (λ _.
                                        all-append is_printable
                                          (unicode_escape (55296 + (c - 65536) / 1024 % 1024))
                                          (unicode_escape (56320 + (c - 65536) % 1024))
                                          (unicode_escape_print (55296 + (c - 65536) / 1024 % 1024))
                                          (unicode_escape_print
                                            (56320 + (c - 65536) % 1024)))))))))))

escape_all_print : (s : Text) → is_print (escape_all s) ≡ true
unfolding escape_all
escape_all_print [] = refl
escape_all_print (c ∷ s) =
    all-append is_printable (escape c) (escape_all s) (escape_print c) (escape_all_print s)

quoted_print : (s : Text) → is_print (quoted s) ≡ true
quoted_print s = all-append is_printable (escape_all s) (b'"' ∷ []) (escape_all_print s) refl

show_int_print : (n : ℤ) → is_print (show_int n) ≡ true
unfolding all_below
show_int_print n = all-show_int is_printable refl n refl

module _ (float_repr : ℕ → Text) (print : (bits : ℕ) → is_print (float_repr bits) ≡ true) where
  dump_value_print : (v : Value) → is_print (dump_value float_repr v) ≡ true
  unfolding dump_value
  dump_value_print (string s) = quoted_print s
  dump_value_print (integer n) = show_int_print n
  dump_value_print (float bits) = print bits
  dump_value_print (boolean true) = refl
  dump_value_print (boolean false) = refl
  dump_value_print null = refl

  dump_item_print : (item : Text × Value) → is_print (dump_item float_repr item) ≡ true
  dump_item_print item =
      all-append is_printable (quoted item.0) (b':' ∷ dump_value float_repr item.1)
        (quoted_print item.0) (dump_value_print item.1)

  dump_items_print : (items : Dict) → is_print (dump_items float_repr items) ≡ true
  unfolding dump_items
  dump_items_print [] = refl
  dump_items_print (item ∷ []) = dump_item_print item
  dump_items_print (item ∷ next ∷ items) =
      all-append is_printable (dump_item float_repr item)
        (b',' ∷ dump_items float_repr (next ∷ items)) (dump_item_print item)
        (dump_items_print (next ∷ items))

  -- If floats are printed in printable ASCII, a formatted log record is printable ASCII alone,
  -- whatever the message and the extra fields hold; so it is one line.
  pub format_print : (u : Unicode) (r : LogRecord) → is_print (format u float_repr r) ≡ true
  unfolding format dumps
  format_print u r =
      all-append is_printable (dump_items float_repr (sort_items (payload u r))) (b'}' ∷ [])
        (dump_items_print (sort_items (payload u r))) refl
