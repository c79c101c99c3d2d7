-- ===== src/Gcode/Thousandths.antt =====
-- Thousandths as integers, for `float`.
use uno_pen_plotter.Prelude.{
  ℕ, zero, suc, ◌+◌, ◌*◌, ◌/◌, ◌%◌, ◌^◌, Bool, true, false, ◌&&◌, leb, ◌==◌, if◌then◌else◌,
}
use uno_pen_plotter.Prelude.Int.{ℤ, pos, negsuc, pos_part, neg_part, ◌+ℤ◌, ◌-ℤ◌, ltb_ℤ}
use uno_pen_plotter.Gcode.{Float}

-- The largest number at most `k` whose square is at most `n`.
unfoldable pub root : ℕ → ℕ → ℕ
root zero n = 0
root (suc k) n = let smaller = root k n in if leb (suc k * suc k) n then suc k else smaller

abbrev pub signed : Bool → ℕ → ℤ
signed negative n = if negative then pos 0 -ℤ pos n else pos n

abbrev pub is_negative : ℤ → Bool
is_negative (pos n) = false
is_negative (negsuc n) = true

abbrev pub magnitude : ℤ → ℕ
magnitude a = pos_part a + neg_part a

abbrev pub opposite : Bool → Bool → Bool
opposite true b = if b then false else true
opposite false b = b

unfoldable pub thousandths_mul : ℤ → ℤ → ℤ
thousandths_mul a b =
    signed (opposite (is_negative a) (is_negative b)) (magnitude a * magnitude b / 1000)

unfoldable pub thousandths_div : ℤ → ℤ → ℤ
thousandths_div a b =
    signed (opposite (is_negative a) (is_negative b)) (magnitude a * 1000 / magnitude b)

abbrev pub same : ℤ → ℤ → Bool
same a b = pos_part a == pos_part b && neg_part a == neg_part b

abbrev pub thousandths : Float ℤ
thousandths = record {
  text = record {
    from_uint32 = λ n. pos (n * 1000);
    is_zero = same (pos 0);
    hundredth = λ a. signed (is_negative a) (magnitude a / 100);
    tenth = λ a. signed (is_negative a) (magnitude a / 10);
    ten_times = λ a. signed (is_negative a) (magnitude a * 10);
    negate = λ a. pos 0 -ℤ a;
  };
  decimal = λ m k. pos (m * 1000 / 10 ^ k);
  add = ◌+ℤ◌;
  sub = ◌-ℤ◌;
  mul = thousandths_mul;
  div = thousandths_div;
  negate = λ a. pos 0 -ℤ a;
  sqrt = λ a. pos (root (pos_part a + 1000) (pos_part a * 1000));
  fabs = λ a. pos (magnitude a);
  lt = ltb_ℤ;
  eq = same;
  same_bytes = same;
  trunc_uint8 = λ a. magnitude a / 1000 % 256;
  trunc_int32 = λ a. signed (is_negative a) (magnitude a / 1000);
  round_uint16 = λ a. (magnitude a + 500) / 1000 % 2 ^ 16;
  from_uint8 = λ n. pos (n * 1000);
}
