-- ===== src/Gcode.antt =====
-- The g-code parser (grbl/gcode.c): its data. A line goes through the words (Gcode/Words), the error
-- checks (Gcode/Checks, Gcode/Axes, Gcode/Moves) and the execution (Gcode/Execute). C's `float` is a
-- parameter.
pub mod Outcome
pub mod Words
pub mod Commands
pub mod Reading
pub mod Checks
pub mod Axes
pub mod Moves
pub mod Execute
pub mod Actions
pub mod Line
pub mod Level
pub mod Modes
pub mod Ends
pub mod Once
pub mod Thousandths
pub mod Examples
use uno_pen_plotter.Prelude.{ℕ, Bool, true, false, ◌||◌, List}
use uno_pen_plotter.Prelude.Int.{ℤ}
use uno_pen_plotter.System.{Machine, Spindle}
use uno_pen_plotter.Settings.{Store}
use uno_pen_plotter.Text.Scan as ScanModel

-- What the parser asks of a `float`.
pub record Float (F : Type 0) : Type 0 where
  -- for `read_float`
  pub text : ScanModel.Float F
  -- `decimal m k` is the constant m / 10^k.
  pub decimal : ℕ → ℕ → F
  pub add : F → F → F
  pub sub : F → F → F
  pub mul : F → F → F
  pub div : F → F → F
  pub negate : F → F
  pub sqrt : F → F
  pub fabs : F → F
  pub lt : F → F → Bool
  -- x == y
  pub eq : F → F → Bool
  -- the bytes of x and y agree, as memcmp finds
  pub same_bytes : F → F → Bool
  -- (uint8_t) trunc(x), (int32_t) trunc(x), (uint16_t) round(x)
  pub trunc_uint8 : F → ℕ
  pub trunc_int32 : F → ℤ
  pub round_uint16 : F → ℕ
  pub from_uint8 : ℕ → F

pub data Status : Type 0 where
  ok expected_command_letter bad_number_format negative_value setting_read_fail : Status
  travel_exceeded invalid_jog_command gcode_unsupported_command : Status
  gcode_modal_group_violation gcode_undefined_feed_rate gcode_command_value_not_integer : Status
  gcode_axis_command_conflict gcode_word_repeated gcode_no_axis_words : Status
  gcode_invalid_line_number gcode_value_word_missing gcode_unsupported_coord_sys : Status
  gcode_g53_invalid_motion_mode gcode_axis_words_exist gcode_no_axis_words_in_plane : Status
  gcode_invalid_target gcode_arc_radius_error gcode_no_offsets_in_plane : Status
  gcode_unused_words gcode_g43_dynamic_axis_error gcode_max_value_exceeded : Status

-- `float[N_AXIS]`
pub record Vector (F : Type 0) : Type 0 where
  pub x_axis : F
  pub y_axis : F
  pub z_axis : F

pub data Axis : Type 0 where
  x_index y_index z_index : Axis

abbrev pub at : {F : Type 0} → Axis → Vector F → F
at x_index v = v.x_axis
at y_index v = v.y_axis
at z_index v = v.z_axis

abbrev pub put : {F : Type 0} → Axis → F → Vector F → Vector F
put x_index a v = record v { x_axis = a }
put y_index a v = record v { y_axis = a }
put z_index a v = record v { z_axis = a }

-- The bits of `axis_words` and of `ijk_words`.
pub record AxisWords : Type 0 where
  pub has_x : Bool
  pub has_y : Bool
  pub has_z : Bool

abbrev pub no_axis_words : AxisWords
no_axis_words = record { has_x = false; has_y = false; has_z = false }

abbrev pub any_axis_word : AxisWords → Bool
any_axis_word w = w.has_x || (w.has_y || w.has_z)

abbrev pub has_axis : Axis → AxisWords → Bool
has_axis x_index w = w.has_x
has_axis y_index w = w.has_y
has_axis z_index w = w.has_z

pub data AxisCommand : Type 0 where
  axis_none axis_non_modal axis_motion_mode axis_tool_length_offset : AxisCommand

pub data NonModal : Type 0 where
  no_action dwell set_coordinate_data go_home_0 set_home_0 go_home_1 set_home_1 : NonModal
  absolute_override set_coordinate_offset reset_coordinate_offset : NonModal

pub data Motion : Type 0 where
  seek linear cw_arc ccw_arc probe_toward probe_toward_no_error probe_away : Motion
  probe_away_no_error motion_none : Motion

pub data Plane : Type 0 where
  plane_xy plane_zx plane_yz : Plane

pub data ProgramFlow : Type 0 where
  running paused completed_m2 completed_m30 : ProgramFlow

-- `gc_modal_t`, without the spindle and the coolant: these are in `Machine`, since the real-time code
-- reads them, and in `Block`. A mode of two values is a Boolean.
pub record Modal : Type 0 where
  pub motion : Motion
  pub inverse_time : Bool
  pub inches : Bool
  pub incremental : Bool
  pub plane_select : Plane
  pub dynamic_offset : Bool
  pub coord_select : ℕ
  pub program_flow : ProgramFlow

-- `gc_values_t`
pub record Values (F : Type 0) : Type 0 where
  pub f : F
  pub ijk : Vector F
  pub l : ℕ
  pub n : ℤ
  pub p : F
  pub r : F
  pub s : F
  pub t : ℕ
  pub xyz : Vector F

-- `parser_block_t`
pub record Block (F : Type 0) : Type 0 where
  pub non_modal_command : NonModal
  pub modal : Modal
  pub spindle : Spindle
  pub coolant : Bool
  pub values : Values F

-- `parser_state_t`
pub record ParserState (F : Type 0) : Type 0 where
  pub modal : Modal
  pub spindle_speed : F
  pub feed_rate : F
  pub tool : ℕ
  pub line_number : ℤ
  pub position : Vector F
  pub coord_system : Vector F
  pub coord_offset : Vector F
  pub tool_length_offset : F

-- `plan_line_data_t`, its condition byte as a record of bits.
pub record PlanData (F : Type 0) : Type 0 where
  pub feed_rate : F
  pub spindle_speed : F
  pub rapid_motion : Bool
  pub no_feed_override : Bool
  pub inverse_time : Bool
  pub spindle : Spindle
  pub coolant : Bool

-- Calls of other components, with the data that they are given.
pub data Call (F : Type 0) : Type 0 where
  mc_line : Vector F → PlanData F → Call F
  mc_arc : Vector F → PlanData F → Vector F → Vector F → F → Plane → Bool → Call F
  mc_probe_cycle : Vector F → PlanData F → Bool → Bool → Call F
  jog_execute : PlanData F → Block F → Call F
  mc_dwell : F → Call F
  spindle_sync : Spindle → Call F
  coolant_sync : Bool → Call F
  protocol_buffer_synchronize protocol_execute_realtime report_program_end : Call F

pub record World (F : Type 0) : Type 0 where
  pub gc_state : ParserState F
  pub machine : Machine
  pub store : Store F
  pub calls : List (Call F)
