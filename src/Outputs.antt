-- ===== src/Outputs.antt =====
-- The two powered outputs and the emergency stop: the pen servo (grbl/spindle_control.c, PEN_SERVO
-- build), the flood coolant pin (grbl/coolant_control.c) and `mc_reset` (grbl/motion_control.c).
pub mod Lift
pub mod Examples
use uno_pen_plotter.Prelude.{ℕ, ◌/◌, Bool, true, false, not, ◌&&◌, ◌||◌, ◌==◌, if◌then◌else◌}
use uno_pen_plotter.System.{Machine, State, Spindle, disable, cw, ccw, Call, call}
use uno_pen_plotter.System.Flags.{system_set_exec_state_flag, system_set_exec_alarm}
use uno_pen_plotter.System.Exec

abbrev pub pen_up_us : ℕ
pen_up_us = 1152

abbrev pub pen_down_us : ℕ
pen_down_us = 1024

abbrev pub is_cw : Spindle → Bool
is_cw cw = true
is_cw _ = false

unfoldable pub spindle_get_state : Machine → Spindle
spindle_get_state m = if m.ocr2b == pen_down_us / 128 then cw else disable

unfoldable pub spindle_stop : Machine → Machine
spindle_stop m = record m { ocr2b = pen_up_us / 128 }

-- `_spindle_set_state`, to which `spindle_set_state(state, rpm)` expands without VARIABLE_SPINDLE.
unfoldable pub spindle_set_state : Spindle → Machine → Machine
spindle_set_state state m =
    let m' =
      if not m.abort && not m.rt_exec_state.reset
      then record m { ocr2b = if is_cw state then pen_down_us / 128 else pen_up_us / 128 }
      else m in
    record m' { report_ovr_counter = 0 }

-- COOLANT_STATE_FLOOD is the only bit of `cl_state`, since ENABLE_M7 is off.
unfoldable pub coolant_get_state : Machine → Bool
coolant_get_state m = m.flood_pin

unfoldable pub coolant_stop : Machine → Machine
coolant_stop m = record m { flood_pin = false }

unfoldable pub coolant_set_state : Bool → Machine → Machine
coolant_set_state mode m =
    if m.abort
    then m
    else record m { flood_pin = if mode then true else false; report_ovr_counter = 0 }

-- sys.state & (STATE_CYCLE | STATE_HOMING | STATE_JOG)
abbrev pub is_cycle_homing_jog : State → Bool
is_cycle_homing_jog State.cycle = true
is_cycle_homing_jog State.homing = true
is_cycle_homing_jog State.jog = true
is_cycle_homing_jog _ = false

abbrev pub is_homing : State → Bool
is_homing State.homing = true
is_homing _ = false

abbrev pub alarm_homing_fail_reset : ℕ
alarm_homing_fail_reset = 6

abbrev pub alarm_abort_cycle : ℕ
alarm_abort_cycle = 3

-- The part of `mc_reset` that kills the steppers.
kill_steppers : Machine → Machine
kill_steppers m =
    let m' =
      if is_homing m.state
      then if m.rt_exec_alarm == 0 then system_set_exec_alarm alarm_homing_fail_reset m else m
      else system_set_exec_alarm alarm_abort_cycle m in
    call Call.st_go_idle m'

unfoldable pub mc_reset : Machine → Machine
unfolding spindle_stop coolant_stop kill_steppers
mc_reset m =
    if m.rt_exec_state.reset
    then m
    else let m' = coolant_stop (spindle_stop (system_set_exec_state_flag Exec.reset m)) in
      if is_cycle_homing_jog m'.state
        || (m'.step_control.execute_hold || m'.step_control.execute_sys_motion)
      then kill_steppers m'
      else m'
