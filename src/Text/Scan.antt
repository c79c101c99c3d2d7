-- ===== src/Text/Scan.antt =====
-- `read_float` (grbl/nuts_bolts.c). The line is the list of its characters before the terminating
-- zero, from the character counter on; the rest of the list stands for the new counter. C's `float` is
-- a parameter.
use uno_pen_plotter.Prelude.{
  ℕ, zero, suc, ◌+◌, ◌*◌, ◌%◌, ◌^◌, Bool, true, false, not, ◌&&◌, Option, none, some, List, [], ◌∷◌,
  leb, ◌==◌, if◌then◌else◌,
}

abbrev pub max_int_digits : ℕ
max_int_digits = 8

-- `exp` is an 8-bit word: 255 is -1.
pub record Scan : Type 0 where
  pub intval : ℕ
  pub exp : ℕ
  pub ndigit : ℕ
  pub is_decimal : Bool

abbrev pub start : Scan
start = record { intval = 0; exp = 0; ndigit = 0; is_decimal = false }

-- c -= '0', in 8 bits
abbrev pub from_zero : ℕ → ℕ
from_zero c = (c + 208) % 256

unfoldable pub take_digit : ℕ → Scan → Scan
take_digit c s =
    let ndigit = (s.ndigit + 1) % 256 in
    if leb ndigit max_int_digits
    then record s {
      ndigit = ndigit;
      exp = if s.is_decimal then (s.exp + 255) % 256 else s.exp;
      intval = (s.intval * 10 + c) % 2 ^ 32;
    }
    else record s { ndigit = ndigit; exp = if s.is_decimal then s.exp else (s.exp + 1) % 256 }

-- ('.'-'0') & 0xff
abbrev pub is_point : ℕ → Bool
is_point c = c == 254

-- The loop ends at a character that is no digit and not the first point.
abbrev pub ends : ℕ → Scan → Bool
ends c s = not (leb (from_zero c) 9) && not (is_point (from_zero c) && not s.is_decimal)

abbrev pub scan_char : ℕ → Scan → Scan
scan_char c s =
    if leb (from_zero c) 9 then take_digit (from_zero c) s else record s { is_decimal = true }

unfoldable pub scan : List ℕ → Scan → Scan × List ℕ
scan [] s = (s, [])
scan (c ∷ line) s = let rest = scan line (scan_char c s) in if ends c s then (s, c ∷ line) else rest

-- The sign, and the line after it.
unfoldable pub take_sign : List ℕ → Bool × List ℕ
take_sign [] = (false, [])
take_sign (c ∷ line) =
    if c == b'-' then (true, line) else if c == b'+' then (false, line) else (false, c ∷ line)

-- What `read_float` asks of a `float`.
pub record Float (F : Type 0) : Type 0 where
  pub from_uint32 : ℕ → F
  pub is_zero : F → Bool
  pub hundredth : F → F
  pub tenth : F → F
  pub ten_times : F → F
  pub negate : F → F

-- while (exp <= -2) { fval *= 0.01; exp += 2; }
unfoldable pub scale_down : {F : Type 0} → Float F → ℕ → ℕ → F → ℕ × F
scale_down float zero exp fval = (exp, fval)
scale_down float (suc fuel) exp fval =
    let rest = scale_down float fuel ((exp + 2) % 256) (float.hundredth fval) in
    if leb 128 exp && leb exp 254 then rest else (exp, fval)

-- do { fval *= 10.0; } while (--exp > 0);
unfoldable pub scale_up : {F : Type 0} → Float F → ℕ → F → F
scale_up float zero fval = fval
scale_up float (suc exp) fval = scale_up float exp (float.ten_times fval)

unfoldable pub apply_decimal : {F : Type 0} → Float F → ℕ → F → F
apply_decimal float exp fval =
    if float.is_zero fval
    then fval
    else (let (exp', fval') = scale_down float 64 exp fval in
        if leb 128 exp' then float.tenth fval' else scale_up float exp' fval')

-- After the sign. `none`: no digits; else the value and the rest of the line.
unfoldable pub read_unsigned : {F : Type 0} → Float F → Bool → List ℕ → Option (F × List ℕ)
read_unsigned float is_negative line =
    let (s, rest) = scan line start in
    if s.ndigit == 0
    then none
    else (let fval = apply_decimal float s.exp (float.from_uint32 s.intval) in
        some (if is_negative then float.negate fval else fval, rest))

unfoldable pub read_float : {F : Type 0} → Float F → List ℕ → Option (F × List ℕ)
read_float float line =
    let (is_negative, rest) = take_sign line in read_unsigned float is_negative rest
