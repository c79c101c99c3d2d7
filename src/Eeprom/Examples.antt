-- ===== src/Eeprom/Examples.antt =====
-- The EEPROM's theorems at one record, with the cells of the data sheet.
use Prim.Native.Nat.{bit_and}
use uno_pen_plotter.Prelude.{ℕ, ◌≡◌, inl, refl, true, false, List, [], ◌∷◌, arith}
use uno_pen_plotter.Ring.{Array}
use uno_pen_plotter.Eeprom.{
  Program, erase_write, erase_only, write_only, memcpy_to_eeprom_with_checksum,
  memcpy_from_eeprom_with_checksum,
}
use uno_pen_plotter.Eeprom.Cells.{IsEeprom}
use uno_pen_plotter.Eeprom.Records.{IsBytes, AllBytes, write-read, checksum_ignores}

abbrev pub cells : Program
cells erase_write old new = new
cells erase_only old new = 255
cells write_only old new = bit_and old new

pub cells-IsEeprom : IsEeprom cells
cells-IsEeprom = record {
  writes = λ old new. refl;
  erases = λ old new. refl;
  clears = λ old new. refl;
}

abbrev pub fresh : Array ℕ
fresh j = 255

pub fresh-IsBytes : IsBytes fresh
fresh-IsBytes j = omega arith

abbrev three : List ℕ
three = 71 ∷ 0 ∷ 255 ∷ []

three-AllBytes : AllBytes three
three-AllBytes = (omega arith, (omega arith, (omega arith, tt)))

write-read_example :
    (memcpy_from_eeprom_with_checksum 768 3 (memcpy_to_eeprom_with_checksum cells 768 three fresh)
      ≡ (three, true))
    × (memcpy_to_eeprom_with_checksum cells 768 three fresh 767 ≡ 255)
write-read_example =
    write-read cells 768 three fresh 767 cells-IsEeprom fresh-IsBytes three-AllBytes
      (inl (omega arith))

abbrev sevens : Array ℕ
sevens j = 7

checksum_ignores_example : (memcpy_from_eeprom_with_checksum 1 3 sevens).1 ≡ false
checksum_ignores_example =
    checksum_ignores 1 1 sevens (λ e. absurd (omega arith)) (λ e. absurd (omega arith))
