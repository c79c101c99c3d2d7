-- ===== src/Settings/Copies.antt =====
-- The copies of the settings and of the startup lines in the EEPROM.
use uno_pen_plotter.Prelude.{
  ℕ, ◌-◌, ◌≡◌, ◌≢◌, ◌⊎◌, inl, inr, refl, ap, sym, ◌∙◌, true, Option, none, some, arith, length,
}
use uno_pen_plotter.Ring.{Array, update}
use uno_pen_plotter.Eeprom.{
  Program, eeprom_put_char, memcpy_to_eeprom_with_checksum, memcpy_from_eeprom_with_checksum,
}
use uno_pen_plotter.Eeprom.Cells.{IsEeprom, put_char_is_update}
use uno_pen_plotter.Eeprom.Records.{IsBytes, AllBytes, write-read, update-IsBytes}
use uno_pen_plotter.Settings.{Float, Settings, Store, Status, settings_version, axis_n_settings}
use uno_pen_plotter.Settings.Change.{
  Outcome, refused, changed, find_axis_setting, change_axis, change_pins, change_reports,
  change_limits, change_homing, change_other, change_setting,
}
use uno_pen_plotter.Settings.Saved.{
  Layout, eeprom_addr_global, write_global_settings, finish, settings_store_global_setting,
}

-- Every value of the settings takes the same number of bytes.
pub record IsLayout {F : Type 0} (layout : Layout F) : Type 0 where
  pub bytes_in : (s : Settings F) → AllBytes (layout.bytes s)
  pub same_size : (s : Settings F) → length (layout.bytes s) ≡ layout.size

-- The EEPROM holds the settings: the version, and a good record of their bytes.
pub record Saved {F : Type 0} (layout : Layout F) (s : Store F) : Type 0 where
  pub version : s.eeprom 0 ≡ settings_version
  pub bytes_saved :
      memcpy_from_eeprom_with_checksum eeprom_addr_global layout.size s.eeprom
      ≡ (layout.bytes s.settings, true)

pub write-Saved :
    {F : Type 0} (program : Program) (layout : Layout F) (s : Store F)
    → IsEeprom program
    → IsLayout layout
    → IsBytes s.eeprom
    → Saved layout (write_global_settings program layout s)
unfolding write_global_settings
write-Saved {F = F} program layout s e l m = record {
  version = both.1 ∙ ap (λ mem. mem 0) (put_version s e m);
  bytes_saved =
      ap
        (λ n. memcpy_from_eeprom_with_checksum eeprom_addr_global n (
          memcpy_to_eeprom_with_checksum program eeprom_addr_global (layout.bytes s.settings)
            versioned))
        (sym (l.same_size s.settings))
      ∙ both.0;
}
  where
    versioned : Array ℕ
    versioned = eeprom_put_char program 0 settings_version s.eeprom

    put_version :
        (s : Store F)
        → IsEeprom program
        → IsBytes s.eeprom
        → eeprom_put_char program 0 settings_version s.eeprom ≡ update s.eeprom 0 settings_version
    put_version s e m = put_char_is_update program 0 settings_version s.eeprom e (m 0) (omega arith)

    both :
        (memcpy_from_eeprom_with_checksum eeprom_addr_global (length (layout.bytes s.settings)) (
            memcpy_to_eeprom_with_checksum program eeprom_addr_global
              (layout.bytes s.settings)
              versioned)
          ≡ (layout.bytes s.settings, true))
        × (memcpy_to_eeprom_with_checksum program eeprom_addr_global
              (layout.bytes s.settings)
              versioned
              0
            ≡ versioned 0)
    both =
        write-read program eeprom_addr_global (layout.bytes s.settings) versioned 0 e
          (rw (put_version s e m) (update-IsBytes s.eeprom 0 settings_version m (omega arith)))
          (l.bytes_in s.settings) (inl (omega arith))

-- Refused for a reason, or changed without the EEPROM.
abbrev Apart : {F : Type 0} → Store F → Outcome F → Type 0
Apart s (refused status) = status ≢ Status.ok
Apart s (changed s') = s'.eeprom ≡ s.eeprom

axis-Apart :
    {F : Type 0} (float : Float F) (found : Option (ℕ × ℕ)) (value : F) (s : Store F)
    → Apart s (change_axis float found value s)
unfolding change_axis
axis-Apart float none value s = ground arith
axis-Apart float (some (set_idx, axis)) value s = refl

pins-Apart : {F : Type 0} (p v : ℕ) (s : Store F) → Apart s (change_pins p v s)
unfolding change_pins
pins-Apart p v s = ground arith

reports-Apart : {F : Type 0} (p v : ℕ) (x : F) (s : Store F) → Apart s (change_reports p v x s)
unfolding change_reports
reports-Apart p v x s = ground arith

limits-Apart : {F : Type 0} (p v : ℕ) (s : Store F) → Apart s (change_limits p v s)
unfolding change_limits
limits-Apart p v s = ground arith

homing-Apart : {F : Type 0} (p v : ℕ) (x : F) (s : Store F) → Apart s (change_homing p v x s)
unfolding change_homing
homing-Apart p v x s = ground arith

other-Apart :
    {F : Type 0} (float : Float F) (p : ℕ) (x : F) (s : Store F)
    → Apart s (change_other float p x s)
unfolding change_other
other-Apart float p x s = ground (
  arith,
  pins-Apart p (float.trunc x) s,
  reports-Apart p (float.trunc x) x s,
  limits-Apart p (float.trunc x) s,
  homing-Apart p (float.trunc x) x s,
)

change-Apart :
    {F : Type 0} (float : Float F) (p : ℕ) (x : F) (s : Store F)
    → Apart s (change_setting float p x s)
unfolding change_setting
change-Apart float p x s = ground (
  arith,
  axis-Apart float (find_axis_setting axis_n_settings 0 (p - 100)) x s,
  other-Apart float p x s,
)

abbrev pub Stored : {F : Type 0} → Layout F → Store F → Status × Store F → Type 0
Stored layout s (status, s') =
    (status ≡ Status.ok) × Saved layout s' ⊎ (status ≢ Status.ok) × (s' ≡ s)

finish-Stored :
    {F : Type 0} (program : Program) (layout : Layout F) (s : Store F) (o : Outcome F)
    → IsEeprom program
    → IsLayout layout
    → IsBytes s.eeprom
    → Apart s o
    → Stored layout s (finish program layout s o)
finish-Stored program layout s (refused status) e l m a = inr (a, refl)
finish-Stored program layout s (changed s') e l m a =
    inl (refl, write-Saved program layout s' e l (rw a m))

-- Storing a setting either succeeds, and then the EEPROM holds the version and a good record of the
-- settings as they are in memory, or fails with an error status and changes nothing at all.
-- Conditions: the EEPROM holds bytes, its programming modes work as its data sheet says, and the
-- settings in memory always take the same number of bytes.
pub store-Stored :
    {F : Type 0} (program : Program) (layout : Layout F) (float : Float F) (p : ℕ) (x : F)
    (s : Store F)
    → IsEeprom program
    → IsLayout layout
    → IsBytes s.eeprom
    → Stored layout s (settings_store_global_setting program layout float p x s)
unfolding settings_store_global_setting
store-Stored program layout float p x s e l m =
    finish-Stored program layout s (change_setting float p x s) e l m (change-Apart float p x s)
