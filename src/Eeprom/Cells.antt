-- ===== src/Eeprom/Cells.antt =====
-- One byte of the EEPROM, and the programming modes that the driver picks between.
use Prim.Native.Nat.{bit_and, bit_xor}
use mathlib.Core.Path.{fun_ext}
use uno_pen_plotter.Prelude.{
  ℕ, zero, suc, ◌<◌, ◌≡◌, refl, Bool, true, ◌&&◌, arith, ◌==◌, if◌then◌else◌,
}
use uno_pen_plotter.Ring.{Array, update}
use uno_pen_plotter.Eeprom.{erase_write, erase_only, write_only, Program, eeprom_put_char}

-- What the data sheet says of the modes: erasing sets all bits, writing can only clear bits.
pub record IsEeprom (program : Program) : Type 0 where
  pub writes : (old new : ℕ) → program erase_write old new ≡ new
  pub erases : (old new : ℕ) → program erase_only old new ≡ 255
  pub clears : (old new : ℕ) → program write_only old new ≡ bit_and old new

every : ℕ → (ℕ → Bool) → Bool
every zero p = true
every (suc n) p = p n && every n p

every_lem : (n : ℕ) (p : ℕ → Bool) (x : ℕ) → every n p ≡ true → x < n → p x ≡ true
unfolding every
every_lem zero p x h lt = absurd (omega arith)
every_lem (suc n) p x h lt = ground (arith, every_lem n p x)

-- The picked mode is right for two bytes.
abbrev mode_right : ℕ → ℕ → Bool
mode_right old new =
    if bit_and (bit_xor old new) new == 0
    then if bit_xor old new == 0 then old == new else bit_and old new == new
    else true

table : every 256 (λ old. every 256 (mode_right old)) ≡ true
unfolding every
table = refl

mode_right_lem : (old new : ℕ) → old < 256 → new < 256 → mode_right old new ≡ true
mode_right_lem old new o n =
    every_lem 256 (mode_right old) new
      (every_lem 256 (λ old. every 256 (mode_right old)) old table o) n

pub put_char_lem :
    (program : Program) (addr new : ℕ) (mem : Array ℕ)
    → IsEeprom program
    → mem addr < 256
    → new < 256
    → (j : ℕ) → eeprom_put_char program addr new mem j ≡ update mem addr new j
unfolding eeprom_put_char
put_char_lem program addr new mem h o n j = ground (
  arith,
  mode_right_lem (mem addr) new o n,
  h.writes (mem addr) new,
  h.erases (mem addr) new,
  h.clears (mem addr) new,
)

pub put_char_is_update :
    (program : Program) (addr new : ℕ) (mem : Array ℕ)
    → IsEeprom program
    → mem addr < 256
    → new < 256
    → eeprom_put_char program addr new mem ≡ update mem addr new
put_char_is_update program addr new mem h o n =
    fun_ext (λ j. put_char_lem program addr new mem h o n j)
