-- ===== src/Text/Print.antt =====
-- The printers of unsigned and signed integers (grbl/print.c).
use uno_pen_plotter.Prelude.{
  ℕ, zero, suc, ◌+◌, ◌-◌, ◌/◌, ◌%◌, ◌^◌, List, [], ◌∷◌, ◌++◌, leb, ◌==◌, if◌then◌else◌,
}

-- A digit is only printed if it is set: '0' is not 0.
abbrev pub digit_if : ℕ → List ℕ
digit_if digit = if digit == 0 then [] else digit ∷ []

unfoldable pub print_uint8_base10 : ℕ → List ℕ
print_uint8_base10 n =
    let digit_a = if leb 100 n then b'0' + n % 10 else 0 in
    let n₁ = if leb 100 n then n / 10 else n in
    let digit_b = if leb 10 n₁ then b'0' + n₁ % 10 else 0 in
    let n₂ = if leb 10 n₁ then n₁ / 10 else n₁ in
    (b'0' + n₂) ∷ (digit_if digit_b ++ digit_if digit_a)

-- The loop that fills `buf`, lowest digit first.
unfoldable pub fill_bits : ℕ → ℕ → List ℕ
fill_bits zero n = []
fill_bits (suc digits) n = n % 2 ∷ fill_bits digits (n / 2)

-- for (; i > 0; i--) serial_write('0' + buf[i-1]);
unfoldable pub print_back : List ℕ → List ℕ
print_back [] = []
print_back (d ∷ buf) = print_back buf ++ ((b'0' + d) ∷ [])

unfoldable pub print_uint8_base2_ndigit : ℕ → ℕ → List ℕ
print_uint8_base2_ndigit n digits = print_back (fill_bits digits n)

-- The loop `while (n > 0)`, at most as often as `buf` has places.
unfoldable pub fill_digits : ℕ → ℕ → List ℕ
fill_digits zero n = []
fill_digits (suc places) n =
    let rest = fill_digits places (n / 10) in if n == 0 then [] else n % 10 ∷ rest

abbrev pub buf_size : ℕ
buf_size = 10

unfoldable pub print_uint32_base10 : ℕ → List ℕ
print_uint32_base10 n = if n == 0 then b'0' ∷ [] else print_back (fill_digits buf_size n)

-- `n` is a 32-bit word; it is negative from 2^31 on, and `-n` wraps.
unfoldable pub print_integer : ℕ → List ℕ
print_integer n =
    if leb (2 ^ 31) n
    then b'-' ∷ print_uint32_base10 ((2 ^ 32 - n) % 2 ^ 32)
    else print_uint32_base10 n
