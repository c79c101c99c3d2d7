-- ===== src/Text/RoundTrip.antt =====
-- What the integer printers print, `read_float` reads.
use uno_pen_plotter.Prelude.{
  ℕ, ◌+◌, ◌-◌, ◌%◌, ◌^◌, ◌≤◌, ◌<◌, ◌≡◌, refl, ◌∙◌, Bool, true, false, ◌&&◌, some, List, [], ◌∷◌,
  ◌++◌, arith, leb, ◌==◌, if◌then◌else◌, length,
}
use uno_pen_plotter.Text.Print.{
  print_uint8_base10, fill_digits, print_back, print_uint32_base10, print_integer,
}
use uno_pen_plotter.Text.Scan.{
  take_sign, Float, scale_down, scale_up, apply_decimal, read_unsigned, read_float,
}
use uno_pen_plotter.Text.Decimal.{
  AllDigits, digits, printed, digits-AllDigits, some_digits, value-digits, printed_scan, EndsHere,
}

abbrev StartsWithDigit : List ℕ → Type 0
StartsWithDigit [] = ⊥
StartsWithDigit (c ∷ line) = (48 ≤ c) × (c < 58)

starts-append : (xs ys : List ℕ) → StartsWithDigit xs → StartsWithDigit (xs ++ ys)
starts-append [] ys h = absurd h
starts-append (x ∷ xs) ys h = h

starts-print_back : (ds : List ℕ) → AllDigits ds → 0 < length ds → StartsWithDigit (print_back ds)
unfolding print_back
starts-print_back [] a l = absurd (omega arith)
starts-print_back (d ∷ []) a l = (omega arith, omega (arith, a.0))
starts-print_back (d ∷ e ∷ ds) a l =
    starts-append (print_back (e ∷ ds)) ((b'0' + d) ∷ [])
      (starts-print_back (e ∷ ds) a.1 (omega arith))

no_sign : (line : List ℕ) → StartsWithDigit line → take_sign line ≡ (false, line)
unfolding take_sign
no_sign [] h = absurd h
no_sign (c ∷ line) h = ground arith

no_decimal : {F : Type 0} (float : Float F) (fval : F) → apply_decimal float 0 fval ≡ fval
unfolding apply_decimal scale_down scale_up
no_decimal float fval = ground arith

-- Reading from the digits on.
read_digits :
    {F : Type 0} (float : Float F) (n : ℕ) (line : List ℕ) (is_negative : Bool)
    → n < 10 ^ 8
    → EndsHere line
    → read_unsigned float is_negative (print_back (digits n) ++ line)
      ≡ some (if is_negative then float.negate (float.from_uint32 n) else float.from_uint32 n, line)
unfolding read_unsigned
read_digits float n line is_negative h e =
    rw (printed_scan n line h e, found n, value-digits n h, no_decimal float (float.from_uint32 n))
      refl
  where
    found : (n : ℕ) → length (digits n) == 0 ≡ false
    found n = ground (arith, some_digits n)

printed_starts : (n : ℕ) (line : List ℕ) → StartsWithDigit (print_back (digits n) ++ line)
printed_starts n line =
    starts-append (print_back (digits n)) line
      (starts-print_back (digits n) (digits-AllDigits n) (some_digits n))

read_minus :
    {F : Type 0} (float : Float F) (line : List ℕ)
    → read_float float (b'-' ∷ line) ≡ read_unsigned float true line
unfolding read_float take_sign
read_minus float line = refl

read_no_sign :
    {F : Type 0} (float : Float F) (line : List ℕ)
    → StartsWithDigit line
    → read_float float line ≡ read_unsigned float false line
unfolding read_float
read_no_sign float line h = rw (no_sign line h) refl

negative_word :
    (n : ℕ) → n < 10 ^ 8 → 0 < n → print_integer (2 ^ 32 - n) ≡ b'-' ∷ print_uint32_base10 n
unfolding print_integer
negative_word n h pos = rw (is_negative_word n h, negated n h pos) refl
  where
    is_negative_word : (n : ℕ) → n < 10 ^ 8 → leb (2 ^ 31) (2 ^ 32 - n) ≡ true
    is_negative_word n h = ground arith

    negated : (n : ℕ) → n < 10 ^ 8 → 0 < n → (2 ^ 32 - (2 ^ 32 - n)) % 2 ^ 32 ≡ n
    negated n h pos = omega arith

-- A signed 32-bit word of at most eight digits that is printed and then read, before a character
-- that ends a number, is read as the number it stands for, with its sign, and reading stops exactly
-- after it.
pub read-print :
    {F : Type 0} (float : Float F) (n : ℕ) (is_negative : Bool) (line : List ℕ)
    → n < 10 ^ 8
    → EndsHere line
    → is_negative && n == 0 ≡ false
    → read_float float (print_integer (if is_negative then 2 ^ 32 - n else n) ++ line)
      ≡ some (if is_negative then float.negate (float.from_uint32 n) else float.from_uint32 n, line)
unfolding print_integer
read-print float n true line h e s =
    rw (negative_word n h (ground arith), printed n)
      (read_minus float (print_back (digits n) ++ line) ∙ read_digits float n line true h e)
read-print float n false line h e s =
    rw (positive n h, printed n)
      (read_no_sign float (print_back (digits n) ++ line) (printed_starts n line)
        ∙ read_digits float n line false h e)
  where
    positive : (n : ℕ) → n < 10 ^ 8 → leb (2 ^ 31) n ≡ false
    positive n h = ground arith

-- A byte is printed in base 10 like a longer word.
pub uint8_like_uint32 : (n : ℕ) → n < 256 → print_uint8_base10 n ≡ print_uint32_base10 n
unfolding print_uint8_base10 print_uint32_base10 fill_digits print_back
uint8_like_uint32 n h = ground arith
