-- ===== src/Settings/Startup.antt =====
-- The startup lines in the EEPROM.
use uno_pen_plotter.Prelude.{
  ℕ, ◌+◌, ◌≤◌, ◌<◌, ◌≡◌, ◌≢◌, ◌⊎◌, inr, refl, ap, sym, ◌∙◌, true, List, arith, length,
}
use uno_pen_plotter.Ring.{Array}
use uno_pen_plotter.Eeprom.{
  Program, memcpy_to_eeprom_with_checksum, memcpy_from_eeprom_with_checksum,
}
use uno_pen_plotter.Eeprom.Cells.{IsEeprom}
use uno_pen_plotter.Eeprom.Records.{IsBytes, AllBytes, write-read, read_from_same}
use uno_pen_plotter.Settings.{Store}
use uno_pen_plotter.Settings.Saved.{
  startup_addr, line_buffer_size, settings_store_startup_line, settings_read_startup_line,
}

-- The two startup lines lie apart.
startup_apart :
    (n k j : ℕ)
    → n < 2
    → k < 2
    → n ≢ k
    → startup_addr k ≤ j
    → j ≤ startup_addr k + line_buffer_size
    → (j < startup_addr n) ⊎ (startup_addr n + line_buffer_size < j)
startup_apart n k j hn hk ne lo hi = ground arith

line_back :
    (program : Program) (d : ℕ) (line : List ℕ) (mem : Array ℕ)
    → IsEeprom program
    → IsBytes mem
    → AllBytes line
    → length line ≡ line_buffer_size
    → memcpy_from_eeprom_with_checksum d line_buffer_size
        (memcpy_to_eeprom_with_checksum program d line mem)
      ≡ (line, true)
line_back program d line mem e m b len =
    ap
      (λ n.
        memcpy_from_eeprom_with_checksum d n (memcpy_to_eeprom_with_checksum program d line mem))
      (sym len)
    ∙ (write-read program d line mem (d + length line + 1) e m b (inr (omega arith))).0

other_line :
    (program : Program) (n k : ℕ) (line : List ℕ) (mem : Array ℕ)
    → IsEeprom program
    → IsBytes mem
    → AllBytes line
    → length line ≡ line_buffer_size
    → n < 2
    → k < 2
    → n ≢ k
    → memcpy_from_eeprom_with_checksum
        (startup_addr k)
        line_buffer_size
        (memcpy_to_eeprom_with_checksum program (startup_addr n) line mem)
      ≡ memcpy_from_eeprom_with_checksum (startup_addr k) line_buffer_size mem
unfolding memcpy_from_eeprom_with_checksum
other_line program n k line mem e m b len hn hk ne =
    read_from_same (startup_addr k) line_buffer_size 0 mem
      (memcpy_to_eeprom_with_checksum program (startup_addr n) line mem)
      (λ j lo hi.
        (write-read program (startup_addr n) line mem j e m b
          (rw len (startup_apart n k j hn hk ne lo hi))).1)

-- A startup line of 80 bytes that is stored is read back as it is, and the other startup line reads
-- as before.
pub startup_line_lem :
    {F : Type 0} (program : Program) (n k : ℕ) (line : List ℕ) (s : Store F)
    → IsEeprom program
    → IsBytes s.eeprom
    → AllBytes line
    → length line ≡ line_buffer_size
    → n < 2
    → k < 2
    → n ≢ k
    → (settings_read_startup_line program n (settings_store_startup_line program n line s)
        ≡ (true, line, settings_store_startup_line program n line s))
      × (memcpy_from_eeprom_with_checksum
            (startup_addr k)
            line_buffer_size
            (settings_store_startup_line program n line s).eeprom
          ≡ memcpy_from_eeprom_with_checksum (startup_addr k) line_buffer_size s.eeprom)
unfolding settings_read_startup_line settings_store_startup_line
startup_line_lem program n k line s e m b len hn hk ne = (
  rw (line_back program (startup_addr n) line s.eeprom e m b len) refl,
  other_line program n k line s.eeprom e m b len hn hk ne,
)
