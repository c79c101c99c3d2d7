-- ===== src/Text/Decimal.antt =====
-- The digits that are printed, and the scan of them.
use Prim.Native.Nat.pow
use uno_pen_plotter.Prelude.{
  ℕ, zero, suc, ◌+◌, ◌*◌, ◌/◌, ◌^◌, ◌≤◌, ◌<◌, ◌≡◌, refl, ap, ◌∙◌, false, List, [], ◌∷◌, ◌++◌, arith,
  ◌==◌, if◌then◌else◌, length,
}
use mathlib.Core.List.{append_assoc}
use uno_pen_plotter.Text.Print.{fill_digits, print_back, print_uint32_base10, buf_size}
use uno_pen_plotter.Text.Scan.{Scan, start, from_zero, take_digit, is_point, ends, scan_char, scan}

-- The number that digits stand for, lowest first.
abbrev pub value : List ℕ → ℕ
value [] = 0
value (d ∷ ds) = value ds * 10 + d

abbrev pub AllDigits : List ℕ → Type 0
AllDigits [] = Unit
AllDigits (d ∷ ds) = (d < 10) × AllDigits ds

pub fill_digits-AllDigits : (places n : ℕ) → AllDigits (fill_digits places n)
unfolding fill_digits
fill_digits-AllDigits zero n = tt
fill_digits-AllDigits (suc places) n = ground (arith, fill_digits-AllDigits places (n / 10))

value-fill_digits : (places n : ℕ) → n < 10 ^ places → value (fill_digits places n) ≡ n
unfolding fill_digits
value-fill_digits zero n h = omega arith
value-fill_digits (suc places) n h =
    ground (arith, value-fill_digits places (n / 10), pow.suc 10 places)

length-fill_digits : (places k n : ℕ) → n < 10 ^ k → length (fill_digits places n) ≤ k
unfolding fill_digits
length-fill_digits zero k n h = omega arith
length-fill_digits (suc places) zero n h = ground arith
length-fill_digits (suc places) (suc k) n h =
    ground (arith, length-fill_digits places k (n / 10), pow.suc 10 k)

-- The state of the scan after these digits, the highest first.
abbrev pub scanned : List ℕ → Scan
scanned ds = record { intval = value ds; exp = 0; ndigit = length ds; is_decimal = false }

goes_on : (d : ℕ) (s : Scan) → d < 10 → ends (b'0' + d) s ≡ false
goes_on d s h = ground arith

takes_digit :
    (d : ℕ) (ds : List ℕ)
    → d < 10
    → length ds < 8
    → value ds * 10 + d < 2 ^ 32
    → scan_char (b'0' + d) (scanned ds) ≡ scanned (d ∷ ds)
unfolding take_digit
takes_digit d ds h l v = ground arith

digit_step :
    (d : ℕ) (ds line : List ℕ)
    → d < 10
    → length ds < 8
    → value ds * 10 + d < 2 ^ 32
    → scan ((b'0' + d) ∷ line) (scanned ds) ≡ scan line (scanned (d ∷ ds))
unfolding scan
digit_step d ds line h l v = rw (goes_on d (scanned ds) h) (ap (scan line) (takes_digit d ds h l v))

scan_digits :
    (ds line : List ℕ)
    → AllDigits ds
    → length ds ≤ 8
    → value ds < 2 ^ 32
    → scan (print_back ds ++ line) start ≡ scan line (scanned ds)
unfolding print_back
scan_digits [] line a l v = refl
scan_digits (d ∷ ds) line a l v =
    ap (λ cs. scan cs start) (append_assoc (print_back ds) ((b'0' + d) ∷ []) line)
    ∙ scan_digits ds ((b'0' + d) ∷ line) a.1 (omega arith) (omega arith)
    ∙ digit_step d ds line a.0 (omega arith) v

-- A line on which the number ends: it is empty, or starts with neither a digit nor a point.
abbrev pub EndsHere : List ℕ → Type 0
EndsHere [] = Unit
EndsHere (c ∷ line) = (9 < from_zero c) × (is_point (from_zero c) ≡ false)

scan_end : (line : List ℕ) (s : Scan) → EndsHere line → scan line s ≡ (s, line)
unfolding scan
scan_end [] s h = refl
scan_end (c ∷ line) s h = ground arith

-- The digits that are printed, lowest first.
pub digits : ℕ → List ℕ
digits n = if n == 0 then 0 ∷ [] else fill_digits buf_size n

pub printed : (n : ℕ) → print_uint32_base10 n ≡ print_back (digits n)
unfolding print_uint32_base10 digits print_back
printed n = ground arith

pub digits-AllDigits : (n : ℕ) → AllDigits (digits n)
unfolding digits
digits-AllDigits n = ground (arith, fill_digits-AllDigits buf_size n)

pub value-digits : (n : ℕ) → n < 10 ^ 8 → value (digits n) ≡ n
unfolding digits
value-digits n h = ground (arith, value-fill_digits buf_size n)

length-digits : (n : ℕ) → n < 10 ^ 8 → length (digits n) ≤ 8
unfolding digits
length-digits n h = ground (arith, length-fill_digits buf_size 8 n)

pub some_digits : (n : ℕ) → 0 < length (digits n)
unfolding digits fill_digits
some_digits n = ground arith

pub printed_scan :
    (n : ℕ) (line : List ℕ)
    → n < 10 ^ 8
    → EndsHere line
    → scan (print_back (digits n) ++ line) start ≡ (scanned (digits n), line)
printed_scan n line h e =
    scan_digits (digits n) line (digits-AllDigits n) (length-digits n h)
      (rw (value-digits n h) (omega arith))
    ∙ scan_end line (scanned (digits n)) e
