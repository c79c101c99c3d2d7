-- ===== src/Settings/Init.antt =====
-- The start of the settings: what `settings_init` leaves, whatever the EEPROM held.
use uno_pen_plotter.Prelude.{ℕ, ◌≤◌, ◌≡◌, ◌⊎◌, inl, inr, refl, ◌∙◌, true, Bool-cases, arith}
use uno_pen_plotter.Eeprom.{Program, eeprom_get_char, memcpy_to_eeprom_with_checksum}
use uno_pen_plotter.Eeprom.Cells.{IsEeprom, put_char_is_update}
use uno_pen_plotter.Eeprom.Records.{IsBytes, update-IsBytes, write-IsBytes}
use uno_pen_plotter.Settings.{Settings, Store, Call, call, settings_version}
use uno_pen_plotter.Settings.Saved.{
  Layout, put, eeprom_addr_global, write_global_settings, restore_coords, restore_all,
  settings_restore, read_global_settings, settings_init,
}
use uno_pen_plotter.Settings.Copies.{IsLayout, Saved, write-Saved}
use uno_pen_plotter.Settings.LowHalf.{SameLow, SameLow-trans, put_high, coords_high, still_Saved}

global-IsBytes :
    {F : Type 0} (program : Program) (layout : Layout F) (s : Store F)
    → IsEeprom program
    → IsLayout layout
    → IsBytes s.eeprom
    → IsBytes (write_global_settings program layout s).eeprom
unfolding write_global_settings memcpy_to_eeprom_with_checksum
global-IsBytes program layout s e l m =
    write-IsBytes program eeprom_addr_global (layout.bytes s.settings) 0 _ e
      (rw (put_char_is_update program 0 settings_version s.eeprom e (m 0) (omega arith))
        (update-IsBytes s.eeprom 0 settings_version m (omega arith)))
      (l.bytes_in s.settings) (omega arith)

put_more :
    {F : Type 0} {program : Program} {a s : Store F} (d : ℕ)
    → 512 ≤ d
    → IsEeprom program
    → SameLow a s
    → SameLow a (put program d 0 s)
put_more {program = program} {s = s} d h e low =
    SameLow-trans low (put_high program d s e low.bytes h)

-- What is written after the settings lies in the high half.
high_part :
    {F : Type 0} (program : Program) (s : Store F)
    → IsEeprom program
    → IsBytes s.eeprom
    → SameLow s (
        put program 943 0 (
          put program 942 0 (
            put program 850 0 (
              put program 849 0
                (put program 769 0 (put program 768 0 (restore_coords program 8 0 s)))))))
high_part program s e m = put_more 943 (omega arith) e (
    put_more 942 (omega arith) e (
      put_more 850 (omega arith) e (
        put_more 849 (omega arith) e (
          put_more 769 (omega arith) e
            (put_more 768 (omega arith) e (coords_high program 8 0 s e m))))))

restore_lem :
    {F : Type 0} (program : Program) (layout : Layout F) (defaults : Settings F) (s : Store F)
    → IsEeprom program
    → IsLayout layout
    → layout.size ≤ 510
    → IsBytes s.eeprom
    → Saved layout (settings_restore program layout defaults restore_all s)
      × ((settings_restore program layout defaults restore_all s).settings ≡ defaults)
unfolding settings_restore
restore_lem program layout defaults s e l small m =
    let start = record s { settings = defaults } in
    let written = write_global_settings program layout start in
    let high = high_part program written e (global-IsBytes program layout start e l m) in
    (
      still_Saved layout written _ small high (write-Saved program layout start e l m),
      high.settings ∙ written_settings program layout start,
    )
  where
    written_settings :
        {F : Type 0} (program : Program) (layout : Layout F) (s : Store F)
        → (write_global_settings program layout s).settings ≡ s.settings
    written_settings program layout s = unfold write_global_settings in refl

read_succeeds :
    {F : Type 0} (layout : Layout F) (s : Store F)
    → Saved layout s
    → (read_global_settings layout s).0 ≡ true
unfolding read_global_settings eeprom_get_char
read_succeeds layout s v = rw (v.version, v.bytes_saved) refl

logged_Saved :
    {F : Type 0} (layout : Layout F) (c : Call) (s : Store F)
    → Saved layout s
    → Saved layout (call c s)
logged_Saved layout c s v = record { version = v.version; bytes_saved = v.bytes_saved }

read_keeps :
    {F : Type 0} (layout : Layout F) (s : Store F)
    → (read_global_settings layout s).1.eeprom ≡ s.eeprom
unfolding read_global_settings
read_keeps layout s = ground arith

read_depends :
    {F : Type 0} (layout : Layout F) (s s' : Store F)
    → s'.eeprom ≡ s.eeprom
    → (read_global_settings layout s').0 ≡ (read_global_settings layout s).0
unfolding read_global_settings
read_depends layout s s' e = rw e (ground arith)

-- Whatever bytes the EEPROM held, after the settings are initialised the EEPROM holds settings that
-- can be read with the right version and a good checksum; and if those that it held before could not
-- be read, the settings are the defaults. Conditions: the EEPROM's programming modes work as its data
-- sheet says, it holds bytes, and the settings in memory always take the same number of bytes, at
-- most 510.
pub init_lem :
    {F : Type 0} (program : Program) (layout : Layout F) (defaults : Settings F) (s : Store F)
    → IsEeprom program
    → IsLayout layout
    → layout.size ≤ 510
    → IsBytes s.eeprom
    → ((read_global_settings layout (settings_init program layout defaults s)).0 ≡ true)
      × (((read_global_settings layout s).0 ≡ true)
          ⊎ ((settings_init program layout defaults s).settings ≡ defaults))
unfolding settings_init
init_lem program layout defaults s e l small m =
    elim (Bool-cases (read_global_settings layout s).0) [
      | inl good ↦ rw good (
        read_depends layout s (read_global_settings layout s).1 (read_keeps layout s) ∙ good,
        inl refl,
      )
      | inr bad ↦
          let failed = call Call.report_read_fail (read_global_settings layout s).1 in
          let (saved, same) =
            restore_lem program layout defaults failed e l small (rw (read_keeps layout s) m) in
          rw bad (
            read_succeeds layout _ (logged_Saved layout Call.report_grbl_settings _ saved),
            inr same,
          )
    ]
