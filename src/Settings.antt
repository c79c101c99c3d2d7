-- ===== src/Settings.antt =====
-- The settings and their records in the EEPROM (grbl/settings.c). C's `float` and its byte
-- representation are parameters.
pub mod Change
pub mod Saved
pub mod Laws
pub mod Copies
pub mod Startup
pub mod LowHalf
pub mod Init
pub mod Examples
use uno_pen_plotter.Prelude.{
  ℕ, zero, suc, ◌+◌, ◌-◌, ◌*◌, Bool, true, false, not, ◌&&◌, ◌||◌, Option, none, some, List, [],
  ◌∷◌, ltb, leb, ◌==◌, if◌then◌else◌,
}
use uno_pen_plotter.Ring.{Array, update}

-- What settings.c asks of a `float`.
pub record Float (F : Type 0) : Type 0 where
  -- value < 0.0
  pub is_negative : F → Bool
  -- (uint8_t) trunc(value)
  pub trunc : F → ℕ
  -- value*60*60
  pub per_minute : F → F
  pub negate : F → F
  pub zero_value : F

-- The bits of `settings.flags`.
pub record Flags : Type 0 where
  pub report_inches : Bool
  pub laser_mode : Bool
  pub invert_st_enable : Bool
  pub hard_limit_enable : Bool
  pub homing_enable : Bool
  pub soft_limit_enable : Bool
  pub invert_limit_pins : Bool
  pub invert_probe_pin : Bool

pub record Settings (F : Type 0) : Type 0 where
  pub steps_per_mm : Array F
  pub max_rate : Array F
  pub acceleration : Array F
  pub max_travel : Array F
  pub pulse_microseconds : ℕ
  pub step_invert_mask : ℕ
  pub dir_invert_mask : ℕ
  pub stepper_idle_lock_time : ℕ
  pub status_report_mask : ℕ
  pub junction_deviation : F
  pub arc_tolerance : F
  pub rpm_max : F
  pub rpm_min : F
  pub flags : Flags
  pub homing_dir_mask : ℕ
  pub homing_feed_rate : F
  pub homing_seek_rate : F
  pub homing_debounce_delay : ℕ
  pub homing_pulloff : F

-- Calls of other components, newest first in the log.
pub data Call : Type 0 where
  st_generate_step_dir_invert_masks probe_configure_invert_mask system_flag_wco_change : Call
  limits_init spindle_init protocol_buffer_synchronize report_read_fail report_grbl_settings : Call

pub data Status : Type 0 where
  ok negative_value invalid_statement setting_step_pulse_min soft_limit_error : Status
  setting_disabled_laser : Status

pub record Store (F : Type 0) : Type 0 where
  pub settings : Settings F
  pub eeprom : Array ℕ
  pub calls : List Call

abbrev pub call : {F : Type 0} → Call → Store F → Store F
call c s = record s { calls = c ∷ s.calls }

abbrev pub n_axis : ℕ
n_axis = 3

abbrev pub axis_n_settings : ℕ
axis_n_settings = 4

abbrev pub axis_settings_increment : ℕ
axis_settings_increment = 10

abbrev pub axis_settings_start_val : ℕ
axis_settings_start_val = 100

abbrev pub settings_version : ℕ
settings_version = 10
