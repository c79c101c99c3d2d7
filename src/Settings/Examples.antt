-- ===== src/Settings/Examples.antt =====
-- The settings' theorems with integers for `float` and a layout of two bytes.
use uno_pen_plotter.Prelude.{
  ◌⊎◌, ℕ, zero, suc, ◌+◌, ◌*◌, ◌%◌, ◌≡◌, Bool, true, false, refl, List, [], ◌∷◌, arith,
}
use uno_pen_plotter.Prelude.Int.{ℤ, pos, negsuc}
use uno_pen_plotter.Eeprom.{memcpy_from_eeprom_with_checksum}
use uno_pen_plotter.Eeprom.Examples.{cells, cells-IsEeprom, fresh, fresh-IsBytes}
use uno_pen_plotter.Eeprom.Records.{AllBytes}
use uno_pen_plotter.Settings.{Float, Flags, Settings, Store}
use uno_pen_plotter.Settings.Saved.{
  settings_init, read_global_settings, Layout, zeros, settings_store_global_setting,
  settings_store_startup_line, settings_read_startup_line,
}
use uno_pen_plotter.Settings.Laws.{SoftNeedsHoming, store-SoftNeedsHoming}
use uno_pen_plotter.Settings.Copies.{IsLayout, Stored, store-Stored}
use uno_pen_plotter.Settings.Init.{init_lem}
use uno_pen_plotter.Settings.Startup.{startup_line_lem}

abbrev is_negative : ℤ → Bool
is_negative (pos n) = false
is_negative (negsuc n) = true

abbrev pub trunc : ℤ → ℕ
trunc (pos n) = n % 256
trunc (negsuc n) = 0

abbrev per_minute : ℤ → ℤ
per_minute (pos n) = pos (n * 3600)
per_minute (negsuc n) = negsuc (n * 3600 + 3599)

abbrev negate : ℤ → ℤ
negate (pos zero) = pos 0
negate (pos (suc n)) = negsuc n
negate (negsuc n) = pos (suc n)

abbrev pub integers : Float ℤ
integers = record {
  is_negative = is_negative;
  trunc = trunc;
  per_minute = per_minute;
  negate = negate;
  zero_value = pos 0;
}

abbrev flags : Flags
flags = record {
  report_inches = false;
  laser_mode = false;
  invert_st_enable = false;
  hard_limit_enable = false;
  homing_enable = true;
  soft_limit_enable = true;
  invert_limit_pins = false;
  invert_probe_pin = false;
}

abbrev pub sample : Settings ℤ
sample = record {
  steps_per_mm = λ i. pos 80;
  max_rate = λ i. pos 500;
  acceleration = λ i. pos 36000;
  max_travel = λ i. negsuc 199;
  pulse_microseconds = 10;
  step_invert_mask = 0;
  dir_invert_mask = 0;
  stepper_idle_lock_time = 25;
  status_report_mask = 1;
  junction_deviation = pos 1;
  arc_tolerance = pos 1;
  rpm_max = pos 1000;
  rpm_min = pos 0;
  flags = flags;
  homing_dir_mask = 0;
  homing_feed_rate = pos 25;
  homing_seek_rate = pos 500;
  homing_debounce_delay = 250;
  homing_pulloff = pos 1;
}

abbrev two_bytes : Settings ℤ → List ℕ
two_bytes s = s.pulse_microseconds % 256 ∷ s.stepper_idle_lock_time % 256 ∷ []

abbrev pub layout : Layout ℤ
layout = record { bytes = two_bytes; from_bytes = λ bs. sample; size = 2 }

layout-IsLayout : IsLayout layout
layout-IsLayout = record { bytes_in = λ s. (omega arith, (omega arith, tt)); same_size = λ s. refl }

abbrev pub stored : Store ℤ
stored = record { settings = sample; eeprom = fresh; calls = [] }

store-SoftNeedsHoming_example :
    SoftNeedsHoming
      (settings_store_global_setting cells layout integers 22 (pos 0) stored).1.settings
store-SoftNeedsHoming_example = store-SoftNeedsHoming cells layout integers 22 (pos 0) stored refl

store-Stored_example :
    Stored layout stored (settings_store_global_setting cells layout integers 0 (pos 5) stored)
store-Stored_example =
    store-Stored cells layout integers 0 (pos 5) stored cells-IsEeprom layout-IsLayout fresh-IsBytes

zeros-AllBytes : (n : ℕ) → AllBytes (zeros n)
zeros-AllBytes zero = tt
zeros-AllBytes (suc n) = (omega arith, zeros-AllBytes n)

startup_line_lem_example :
    (settings_read_startup_line cells 1 (settings_store_startup_line cells 1 (zeros 80) stored)
      ≡ (true, zeros 80, settings_store_startup_line cells 1 (zeros 80) stored))
    × (memcpy_from_eeprom_with_checksum 768 80
          (settings_store_startup_line cells 1 (zeros 80) stored).eeprom
        ≡ memcpy_from_eeprom_with_checksum 768 80 fresh)
startup_line_lem_example =
    startup_line_lem cells 1 0 (zeros 80) stored cells-IsEeprom fresh-IsBytes (zeros-AllBytes 80)
      refl (omega arith) (omega arith) (omega arith)

init_lem_example :
    ((read_global_settings layout (settings_init cells layout sample stored)).0 ≡ true)
    × (((read_global_settings layout stored).0 ≡ true)
        ⊎ ((settings_init cells layout sample stored).settings ≡ sample))
init_lem_example =
    init_lem cells layout sample stored cells-IsEeprom layout-IsLayout (omega arith) fresh-IsBytes
