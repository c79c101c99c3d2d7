-- ===== src/Console.antt =====
-- The `$` commands and the startup lines (grbl/system.c). The g-code parser, the homing cycle and the
-- numbers are an interface, `Parts`, since they are modelled elsewhere or not at all.
pub mod Startup
pub mod Execute
pub mod Guards
pub mod Examples
use uno_pen_plotter.Prelude.{
  ℕ, zero, suc, ◌+◌, ◌-◌, Bool, Option, none, some, List, [], ◌∷◌, leb, ◌==◌, if◌then◌else◌, length,
  get_or,
}
use uno_pen_plotter.Ring.{Array}
use uno_pen_plotter.System.{Machine}
use uno_pen_plotter.Eeprom.{Program}
use uno_pen_plotter.Settings.{Settings, Store, Status}
use uno_pen_plotter.Settings as SettingsModel
use uno_pen_plotter.Settings.Saved.{Layout}
use uno_pen_plotter.Text.Scan.{read_float}
use uno_pen_plotter.Text.Scan as ScanModel

-- What is reported, newest first in the log.
pub data Report : Type 0 where
  grbl_help grbl_settings gcode_modes ngc_parameters build_info : Report
  feedback : ℕ → Report
  execute_startup : ℕ → Report
  status_message : ℕ → Report
  startup_line : ℕ → Report

pub record World (F : Type 0) : Type 0 where
  pub machine : Machine
  pub store : Store F
  pub line : Array ℕ
  pub reports : List Report

-- What the commands use of other components.
pub record Parts (F : Type 0) : Type 0 where
  -- the line in the buffer, parsed and executed
  pub gc_execute_line : World F → ℕ × World F
  -- mc_homing_cycle(HOMING_CYCLE_ALL)
  pub mc_homing_cycle : World F → World F
  -- what the machine is after the wait for the buffer, which serves the real-time commands meanwhile
  -- (Motions/Waits)
  pub protocol_buffer_synchronize : World F → Machine
  pub program : Program
  pub layout : Layout F
  pub defaults : Settings F
  pub setting_float : SettingsModel.Float F
  pub text_float : ScanModel.Float F
  -- parameter > 255
  pub exceeds_255 : F → Bool
  -- (uint8_t) parameter
  pub to_uint8 : F → ℕ

abbrev pub synchronize : {F : Type 0} → Parts F → World F → World F
synchronize parts w = record w { machine = parts.protocol_buffer_synchronize w }

abbrev pub report : {F : Type 0} → Report → World F → World F
report r w = record w { reports = r ∷ w.reports }

-- The characters from an index to the terminating zero, at most so many.
abbrev pub text_at : ℕ → ℕ → Array ℕ → List ℕ
text_at zero i line = []
text_at (suc k) i line = if line i == 0 then [] else line i ∷ text_at k (i + 1) line

abbrev pub line_buffer_size : ℕ
line_buffer_size = 80

-- `read_float(line, &char_counter, &value)`: the value and the new counter.
unfoldable pub number_at : {F : Type 0} → ScanModel.Float F → Array ℕ → ℕ → Option (F × ℕ)
number_at float line i =
    let text = text_at (line_buffer_size - i) i line in
    elim (read_float float text) [
      | none ↦ none
      | some (value, rest) ↦ some (value, i + (length text - length rest))
    ]

-- The loop that moves the text from an index on to the start of the line, with its zero.
unfoldable pub shift_line : ℕ → Array ℕ → Array ℕ
shift_line from line j =
    if leb j (length (text_at (line_buffer_size - from) from line)) then line (from + j) else line j

-- Bytes of the buffer from an index on, and bytes read into its start.
abbrev pub bytes_of : ℕ → ℕ → Array ℕ → List ℕ
bytes_of zero i line = []
bytes_of (suc n) i line = line i ∷ bytes_of n (i + 1) line

abbrev pub read_into : List ℕ → Array ℕ → Array ℕ
read_into bytes line j = get_or bytes j (line j)

abbrev pub status_code : Status → ℕ
status_code Status.ok = 0
status_code Status.negative_value = 4
status_code Status.invalid_statement = 3
status_code Status.setting_step_pulse_min = 6
status_code Status.soft_limit_error = 10
status_code Status.setting_disabled_laser = 17
