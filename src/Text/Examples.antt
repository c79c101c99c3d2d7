-- ===== src/Text/Examples.antt =====
-- Reading and printing at concrete numbers, with integers for `float`.
use uno_pen_plotter.Prelude.{
  zero, suc, ◌*◌, ◌-◌, ◌^◌, ◌≡◌, refl, Bool, true, false, some, [], ◌∷◌, ◌++◌, arith, ◌==◌,
}
use uno_pen_plotter.Prelude.Int.{ℤ, pos, negsuc}
use uno_pen_plotter.Text.Print.{print_integer}
use uno_pen_plotter.Text.Scan.{Float, read_float}
use uno_pen_plotter.Text.RoundTrip.{read-print}

abbrev is_zero : ℤ → Bool
is_zero (pos n) = n == 0
is_zero (negsuc n) = false

abbrev ten_times : ℤ → ℤ
ten_times (pos n) = pos (n * 10)
ten_times (negsuc n) = negsuc (n * 10)

abbrev negate : ℤ → ℤ
negate (pos zero) = pos 0
negate (pos (suc n)) = negsuc n
negate (negsuc n) = pos (suc n)

abbrev pub integers : Float ℤ
integers = record {
  from_uint32 = λ n. pos n;
  is_zero = is_zero;
  hundredth = λ n. n;
  tenth = λ n. n;
  ten_times = ten_times;
  negate = negate;
}

-- -120Y
read-print_example :
    read_float integers (print_integer (2 ^ 32 - 120) ++ (b'Y' ∷ [])) ≡ some (negsuc 119, b'Y' ∷ [])
read-print_example = read-print integers 120 true (b'Y' ∷ []) (omega arith) (omega arith, refl) refl
