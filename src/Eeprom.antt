-- ===== src/Eeprom.antt =====
-- The EEPROM driver (grbl/eeprom.c): bytes, and records of bytes with a checksum. How a cell reacts
-- to the three programming modes is the hardware's, a parameter.
pub mod Cells
pub mod Records
pub mod Examples
use Prim.Native.Nat.{bit_and, bit_xor}
use uno_pen_plotter.Prelude.{
  ℕ, zero, suc, ◌+◌, ◌*◌, ◌/◌, ◌%◌, Bool, ◌&&◌, List, [], ◌∷◌, ◌==◌, if◌then◌else◌,
}
use uno_pen_plotter.Ring.{Array, update}

-- EEPM1 and EEPM0.
pub data Mode : Type 0 where
  erase_write erase_only write_only : Mode

-- What a cell with an old byte holds after an operation in a mode with a byte in EEDR.
abbrev pub Program : Type 0
Program = Mode → ℕ → ℕ → ℕ

unfoldable pub eeprom_get_char : ℕ → Array ℕ → ℕ
eeprom_get_char addr mem = mem addr

unfoldable pub eeprom_put_char : Program → ℕ → ℕ → Array ℕ → Array ℕ
eeprom_put_char program addr new_value mem =
    let old_value = mem addr in
    let diff_mask = bit_xor old_value new_value in
    if bit_and diff_mask new_value == 0
    then if diff_mask == 0 then mem else update mem addr (program write_only old_value new_value)
    else if new_value == 255
    then update mem addr (program erase_only old_value new_value)
    else update mem addr (program erase_write old_value new_value)

-- checksum = (checksum << 1) || (checksum >> 7); checksum += data;
unfoldable pub add_to_checksum : ℕ → ℕ → ℕ
add_to_checksum checksum data_byte =
    ((if checksum * 2 == 0 && checksum / 128 == 0 then 0 else 1) + data_byte) % 256

-- The loop of `memcpy_to_eeprom_with_checksum`, and the checksum after it.
unfoldable pub write_from : Program → ℕ → List ℕ → ℕ → Array ℕ → Array ℕ
write_from program destination [] checksum mem = eeprom_put_char program destination checksum mem
write_from program destination (b ∷ source) checksum mem =
    write_from program (destination + 1) source (add_to_checksum checksum b)
      (eeprom_put_char program destination b mem)

unfoldable pub memcpy_to_eeprom_with_checksum : Program → ℕ → List ℕ → Array ℕ → Array ℕ
memcpy_to_eeprom_with_checksum program destination source mem =
    write_from program destination source 0 mem

-- The loop of `memcpy_from_eeprom_with_checksum`: the bytes, and whether the checksum agrees.
unfoldable pub read_from : ℕ → ℕ → ℕ → Array ℕ → List ℕ × Bool
read_from source zero checksum mem = ([], checksum == eeprom_get_char source mem)
read_from source (suc size) checksum mem =
    let b = eeprom_get_char source mem in
    let (rest, agrees) = read_from (source + 1) size (add_to_checksum checksum b) mem in
    (b ∷ rest, agrees)

unfoldable pub memcpy_from_eeprom_with_checksum : ℕ → ℕ → Array ℕ → List ℕ × Bool
memcpy_from_eeprom_with_checksum source size mem = read_from source size 0 mem
