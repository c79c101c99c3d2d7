-- ===== src/Settings/Change.antt =====
-- `settings_store_global_setting` (grbl/settings.c): which setting a number names, and its new value.
use uno_pen_plotter.Prelude.{
  ℕ, zero, suc, ◌+◌, ◌-◌, true, false, not, ◌&&◌, ◌||◌, Option, none, some, ltb, leb, ◌==◌,
  if◌then◌else◌,
}
use uno_pen_plotter.Ring.{update}
use uno_pen_plotter.Settings.{
  Float, Settings, Store, Call, call, Status, n_axis, axis_n_settings, axis_settings_increment,
  axis_settings_start_val,
}

-- An early return, or the changed state with which the switch ends.
pub data Outcome (F : Type 0) : Type 0 where
  refused : Status → Outcome F
  changed : Store F → Outcome F

-- The while loop, `set_idx` from 0 up: the kind of axis setting and the axis.
unfoldable pub find_axis_setting : ℕ → ℕ → ℕ → Option (ℕ × ℕ)
find_axis_setting zero set_idx parameter = none
find_axis_setting (suc more) set_idx parameter =
    let rest = find_axis_setting more (set_idx + 1) (parameter - axis_settings_increment) in
    if ltb parameter n_axis
    then some (set_idx, parameter)
    else if ltb parameter axis_settings_increment || set_idx + 1 == axis_n_settings
    then none
    else rest

unfoldable pub set_axis : {F : Type 0} → Float F → ℕ → ℕ → F → Settings F → Settings F
set_axis float set_idx axis value s =
    if set_idx == 0
    then record s { steps_per_mm = update s.steps_per_mm axis value }
    else if set_idx == 1
    then record s { max_rate = update s.max_rate axis value }
    else if set_idx == 2
    then record s { acceleration = update s.acceleration axis (float.per_minute value) }
    else if set_idx == 3
    then record s { max_travel = update s.max_travel axis (float.negate value) }
    else s

unfoldable pub change_axis : {F : Type 0} → Float F → Option (ℕ × ℕ) → F → Store F → Outcome F
change_axis float none value s = refused Status.invalid_statement
change_axis float (some (set_idx, axis)) value s =
    changed (record s { settings = set_axis float set_idx axis value s.settings })

-- Cases 0 to 6: the pulse, the masks and the pins.
unfoldable pub change_pins : {F : Type 0} → ℕ → ℕ → Store F → Outcome F
change_pins parameter int_value s =
    let g = s.settings in
    if parameter == 0
    then if ltb int_value 3
      then refused Status.setting_step_pulse_min
      else changed (record s { settings = record g { pulse_microseconds = int_value } })
    else if parameter == 1
    then changed (record s { settings = record g { stepper_idle_lock_time = int_value } })
    else if parameter == 2
    then changed (
        call Call.st_generate_step_dir_invert_masks
          (record s { settings = record g { step_invert_mask = int_value } }))
    else if parameter == 3
    then changed (
        call Call.st_generate_step_dir_invert_masks
          (record s { settings = record g { dir_invert_mask = int_value } }))
    else if parameter == 4
    then changed (record s {
      settings = record g { flags = record (g.flags) { invert_st_enable = not (int_value == 0) } };
    })
    else if parameter == 5
    then changed (record s {
      settings = record g { flags = record (g.flags) { invert_limit_pins = not (int_value == 0) } };
    })
    else changed (
        call Call.probe_configure_invert_mask (record s {
          settings = record g {
            flags = record (g.flags) { invert_probe_pin = not (int_value == 0) };
          };
        }))

-- Cases 10 to 13: reports and tolerances.
unfoldable pub change_reports : {F : Type 0} → ℕ → ℕ → F → Store F → Outcome F
change_reports parameter int_value value s =
    let g = s.settings in
    if parameter == 10
    then changed (record s { settings = record g { status_report_mask = int_value } })
    else if parameter == 11
    then changed (record s { settings = record g { junction_deviation = value } })
    else if parameter == 12
    then changed (record s { settings = record g { arc_tolerance = value } })
    else changed (
        call Call.system_flag_wco_change (record s {
          settings = record g { flags = record (g.flags) { report_inches = not (int_value == 0) } };
        }))

-- Cases 20 to 22: the limits and homing flags.
unfoldable pub change_limits : {F : Type 0} → ℕ → ℕ → Store F → Outcome F
change_limits parameter int_value s =
    let g = s.settings in
    if parameter == 20
    then if int_value == 0
      then changed (record s {
        settings = record g { flags = record (g.flags) { soft_limit_enable = false } };
      })
      else if not g.flags.homing_enable
      then refused Status.soft_limit_error
      else changed (record s {
        settings = record g { flags = record (g.flags) { soft_limit_enable = true } };
      })
    else if parameter == 21
    then changed (
        call Call.limits_init (record s {
          settings = record g {
            flags = record (g.flags) { hard_limit_enable = not (int_value == 0) };
          };
        }))
    else if int_value == 0
    then changed (record s {
      settings = record g {
        flags = record (g.flags) { homing_enable = false; soft_limit_enable = false };
      };
    })
    else changed
        (record s { settings = record g { flags = record (g.flags) { homing_enable = true } } })

-- Cases 23 to 27 (homing) and 30, 31 (spindle speeds).
unfoldable pub change_homing : {F : Type 0} → ℕ → ℕ → F → Store F → Outcome F
change_homing parameter int_value value s =
    let g = s.settings in
    if parameter == 23
    then changed (record s { settings = record g { homing_dir_mask = int_value } })
    else if parameter == 24
    then changed (record s { settings = record g { homing_feed_rate = value } })
    else if parameter == 25
    then changed (record s { settings = record g { homing_seek_rate = value } })
    else if parameter == 26
    then changed (record s { settings = record g { homing_debounce_delay = int_value } })
    else if parameter == 27
    then changed (record s { settings = record g { homing_pulloff = value } })
    else if parameter == 30
    then changed (call Call.spindle_init (record s { settings = record g { rpm_max = value } }))
    else changed (call Call.spindle_init (record s { settings = record g { rpm_min = value } }))

-- The switch over the settings that have no axis. Case 32 is compiled without VARIABLE_SPINDLE.
unfoldable pub change_other : {F : Type 0} → Float F → ℕ → F → Store F → Outcome F
change_other float parameter value s =
    let int_value = float.trunc value in
    if leb parameter 6
    then change_pins parameter int_value s
    else if leb 10 parameter && leb parameter 13
    then change_reports parameter int_value value s
    else if leb 20 parameter && leb parameter 22
    then change_limits parameter int_value s
    else if (leb 23 parameter && leb parameter 27) || (parameter == 30 || parameter == 31)
    then change_homing parameter int_value value s
    else if parameter == 32
    then refused Status.setting_disabled_laser
    else refused Status.invalid_statement

-- Everything before the write to the EEPROM.
unfoldable pub change_setting : {F : Type 0} → Float F → ℕ → F → Store F → Outcome F
change_setting float parameter value s =
    if float.is_negative value
    then refused Status.negative_value
    else if leb axis_settings_start_val parameter
    then change_axis float
        (find_axis_setting axis_n_settings 0 (parameter - axis_settings_start_val)) value s
    else change_other float parameter value s
