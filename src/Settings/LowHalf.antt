-- ===== src/Settings/LowHalf.antt =====
-- What leaves the settings and the low half of the EEPROM alone.
use uno_pen_plotter.Prelude.{
  ℕ, zero, suc, ◌+◌, ◌≤◌, ◌<◌, ◌≡◌, inl, refl, sym, ap, ◌∙◌, true, List, arith,
}
use uno_pen_plotter.Ring.{Array, update}
use uno_pen_plotter.Eeprom.{
  Program, eeprom_put_char, memcpy_to_eeprom_with_checksum, memcpy_from_eeprom_with_checksum,
}
use uno_pen_plotter.Eeprom.Cells.{IsEeprom, put_char_is_update}
use uno_pen_plotter.Eeprom.Records.{
  IsBytes, AllBytes, write-read, update-IsBytes, write-IsBytes, read_from_same,
}
use uno_pen_plotter.Settings.{Store}
use uno_pen_plotter.Settings.Saved.{
  Layout, put, save, zeros, coord_size, coord_addr, eeprom_addr_global, settings_write_coord_data,
  restore_coords,
}
use uno_pen_plotter.Settings.Copies.{Saved}

-- The settings and the low half of the EEPROM are as before, and all cells hold bytes.
pub record SameLow {F : Type 0} (s s' : Store F) : Type 0 where
  pub settings : s'.settings ≡ s.settings
  pub cells : (j : ℕ) → j < 512 → s'.eeprom j ≡ s.eeprom j
  pub bytes : IsBytes s'.eeprom

pub SameLow-trans : {F : Type 0} {a b c : Store F} → SameLow a b → SameLow b c → SameLow a c
SameLow-trans h k = record {
  settings = k.settings ∙ h.settings;
  cells = λ j lt. k.cells j lt ∙ h.cells j lt;
  bytes = k.bytes;
}

pub put_high :
    {F : Type 0} (program : Program) (d : ℕ) (s : Store F)
    → IsEeprom program
    → IsBytes s.eeprom
    → 512 ≤ d
    → SameLow s (put program d 0 s)
put_high program d s e m h = record {
  settings = refl;
  cells = λ j lt. ap (λ mem. mem j) (zeroed s e m) ∙ ground arith;
  bytes = rw (zeroed s e m) (update-IsBytes s.eeprom d 0 m (omega arith));
}
  where
    zeroed :
        {F : Type 0} (s : Store F)
        → IsEeprom program
        → IsBytes s.eeprom
        → eeprom_put_char program d 0 s.eeprom ≡ update s.eeprom d 0
    zeroed s e m = put_char_is_update program d 0 s.eeprom e (m d) (omega arith)

save_high :
    {F : Type 0} (program : Program) (d : ℕ) (bs : List ℕ) (s : Store F)
    → IsEeprom program
    → IsBytes s.eeprom
    → AllBytes bs
    → 512 ≤ d
    → SameLow s (save program d bs s)
save_high program d bs s e m b h = record {
  settings = refl;
  cells = λ j lt. (write-read program d bs s.eeprom j e m b (inl (omega arith))).1;
  bytes = still program d bs s.eeprom e m b;
}
  where
    still :
        (program : Program) (d : ℕ) (bs : List ℕ) (mem : Array ℕ)
        → IsEeprom program
        → IsBytes mem
        → AllBytes bs
        → IsBytes (memcpy_to_eeprom_with_checksum program d bs mem)
    still program d bs mem e m b =
        unfold memcpy_to_eeprom_with_checksum in
        write-IsBytes program d bs 0 mem e m b (omega arith)

zeros-AllBytes : (n : ℕ) → AllBytes (zeros n)
zeros-AllBytes zero = tt
zeros-AllBytes (suc n) = (omega arith, zeros-AllBytes n)

coord_high :
    {F : Type 0} (program : Program) (idx : ℕ) (s : Store F)
    → IsEeprom program
    → IsBytes s.eeprom
    → SameLow s (settings_write_coord_data program idx (zeros coord_size) s)
unfolding settings_write_coord_data
coord_high program idx s e m = record { settings = refl; cells = high.cells; bytes = high.bytes }
  where
    high : SameLow s (save program (coord_addr idx) (zeros coord_size) s)
    high =
        save_high program (coord_addr idx) (zeros coord_size) s e m (zeros-AllBytes coord_size)
          (omega arith)

pub coords_high :
    {F : Type 0} (program : Program) (more idx : ℕ) (s : Store F)
    → IsEeprom program
    → IsBytes s.eeprom
    → SameLow s (restore_coords program more idx s)
unfolding restore_coords
coords_high program zero idx s e m = record { settings = refl; cells = λ j lt. refl; bytes = m }
coords_high program (suc more) idx s e m =
    let first = coord_high program idx s e m in
    SameLow-trans first (
      coords_high program more (idx + 1)
        (settings_write_coord_data program idx (zeros coord_size) s) e first.bytes)

-- A record in the low half stays saved.
pub still_Saved :
    {F : Type 0} (layout : Layout F) (s s' : Store F)
    → layout.size ≤ 510
    → SameLow s s'
    → Saved layout s
    → Saved layout s'
unfolding memcpy_from_eeprom_with_checksum
still_Saved layout s s' small h v = record {
  version = h.cells 0 (omega arith) ∙ v.version;
  bytes_saved =
      read_from_same eeprom_addr_global layout.size 0 s.eeprom s'.eeprom
        (λ j lo hi. h.cells j (omega arith))
      ∙ v.bytes_saved
      ∙ ap (λ g. (layout.bytes g, true)) (sym h.settings);
}
