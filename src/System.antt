-- ===== src/System.antt =====
-- The state that the main program and the interrupts share (grbl/system.h), and the handlers of the
-- real-time flags (grbl/system.c). A flag byte is a record of its bits: `|=` sets fields to true,
-- `&= ~` to false. `sys.state` only ever holds one of its states, so it is an enumeration.
pub mod Flags
pub mod Exec
pub mod Overrides
pub mod Samples
use uno_pen_plotter.Prelude.{ℕ, suc, Bool, false, ◌||◌, List, ◌∷◌}
use uno_pen_plotter.Planner.{Indices}
use uno_pen_plotter.Planner.Recalculate.{Number, Speeds, planner_recalculate}

pub data State : Type 0 where
  idle alarm check_mode homing cycle hold jog safety_door sleep : State

-- `sys_rt_exec_state`
pub record ExecState : Type 0 where
  pub status_report : Bool
  pub cycle_start : Bool
  pub cycle_stop : Bool
  pub feed_hold : Bool
  pub reset : Bool
  pub safety_door : Bool
  pub motion_cancel : Bool
  pub sleep : Bool

-- `sys_rt_exec_motion_override`
pub record MotionOverride : Type 0 where
  pub feed_reset : Bool
  pub feed_coarse_plus : Bool
  pub feed_coarse_minus : Bool
  pub feed_fine_plus : Bool
  pub feed_fine_minus : Bool
  pub rapid_reset : Bool
  pub rapid_medium : Bool
  pub rapid_low : Bool

-- `sys_rt_exec_accessory_override`
pub record AccessoryOverride : Type 0 where
  pub spindle_reset : Bool
  pub spindle_coarse_plus : Bool
  pub spindle_coarse_minus : Bool
  pub spindle_fine_plus : Bool
  pub spindle_fine_minus : Bool
  pub spindle_stop : Bool
  pub flood_toggle : Bool
  pub mist_toggle : Bool

-- `sys.suspend`
pub record Suspend : Type 0 where
  pub hold_complete : Bool
  pub restart_retract : Bool
  pub retract_complete : Bool
  pub initiate_restore : Bool
  pub restore_complete : Bool
  pub safety_door_ajar : Bool
  pub motion_cancel : Bool
  pub jog_cancel : Bool

-- `sys.step_control`
pub record StepControl : Type 0 where
  pub end_motion : Bool
  pub execute_hold : Bool
  pub execute_sys_motion : Bool
  pub update_spindle_pwm : Bool

-- `sys.spindle_stop_ovr`
pub record SpindleStop : Type 0 where
  pub enabled : Bool
  pub initiate : Bool
  pub restore : Bool
  pub restore_cycle : Bool

-- SUSPEND_DISABLE, STEP_CONTROL_NORMAL_OP and SPINDLE_STOP_OVR_DISABLED, the bytes that are zero.
abbrev pub suspend_disable : Suspend
suspend_disable = record {
  hold_complete = false;
  restart_retract = false;
  retract_complete = false;
  initiate_restore = false;
  restore_complete = false;
  safety_door_ajar = false;
  motion_cancel = false;
  jog_cancel = false;
}

abbrev pub step_control_normal_op : StepControl
step_control_normal_op = record {
  end_motion = false;
  execute_hold = false;
  execute_sys_motion = false;
  update_spindle_pwm = false;
}

abbrev pub spindle_stop_ovr_disabled : SpindleStop
spindle_stop_ovr_disabled = record {
  enabled = false;
  initiate = false;
  restore = false;
  restore_cycle = false;
}

abbrev pub no_exec_state : ExecState
no_exec_state = record {
  status_report = false;
  cycle_start = false;
  cycle_stop = false;
  feed_hold = false;
  reset = false;
  safety_door = false;
  motion_cancel = false;
  sleep = false;
}

abbrev pub no_motion_override : MotionOverride
no_motion_override = record {
  feed_reset = false;
  feed_coarse_plus = false;
  feed_coarse_minus = false;
  feed_fine_plus = false;
  feed_fine_minus = false;
  rapid_reset = false;
  rapid_medium = false;
  rapid_low = false;
}

abbrev pub no_accessory_override : AccessoryOverride
no_accessory_override = record {
  spindle_reset = false;
  spindle_coarse_plus = false;
  spindle_coarse_minus = false;
  spindle_fine_plus = false;
  spindle_fine_minus = false;
  spindle_stop = false;
  flood_toggle = false;
  mist_toggle = false;
}

-- `if (x)` on a flag byte: some bit is set.
abbrev pub any_exec_state : ExecState → Bool
any_exec_state e =
    e.status_report
    || (e.cycle_start
        || (e.cycle_stop
            || (e.feed_hold || (e.reset || (e.safety_door || (e.motion_cancel || e.sleep))))))

abbrev pub any_motion_override : MotionOverride → Bool
any_motion_override e =
    e.feed_reset
    || (e.feed_coarse_plus
        || (e.feed_coarse_minus
            || (e.feed_fine_plus
                || (e.feed_fine_minus || (e.rapid_reset || (e.rapid_medium || e.rapid_low))))))

abbrev pub any_accessory_override : AccessoryOverride → Bool
any_accessory_override e =
    e.spindle_reset
    || (e.spindle_coarse_plus
        || (e.spindle_coarse_minus
            || (e.spindle_fine_plus
                || (e.spindle_fine_minus
                    || (e.spindle_stop || (e.flood_toggle || e.mist_toggle))))))

abbrev pub any_suspend : Suspend → Bool
any_suspend s =
    s.hold_complete
    || (s.restart_retract
        || (s.retract_complete
            || (s.initiate_restore
                || (s.restore_complete
                    || (s.safety_door_ajar || (s.motion_cancel || s.jog_cancel))))))

abbrev pub any_spindle_stop : SpindleStop → Bool
any_spindle_stop s = s.enabled || (s.initiate || (s.restore || s.restore_cycle))

-- `gc_state.modal.spindle`
pub data Spindle : Type 0 where
  disable cw ccw : Spindle

-- Calls of other components that this one makes, in order, with the value that they depend on.
pub data Call : Type 0 where
  report_alarm_message : ℕ → Call
  report_critical_event report_realtime_status report_safety_door_ajar : Call
  report_sleep_mode report_spindle_restore report_feedback : Call
  st_update_plan_block_parameters st_prep_buffer st_wake_up st_reset st_go_idle : Call
  plan_update_velocity_profile_parameters : Call
  gc_sync_position plan_sync_position : Call

-- The operations of `float`, whose values are the words that hold them, and the speeds that
-- `planner_recalculate` finds in the blocks at its calls to come, the next one first. The blocks' speeds
-- are set by the planner and the stepper between these calls, and no other modelled code reads them.
pub record Planning : Type 0 where
  pub number : Number ℕ
  pub speeds : ℕ → ℕ → Speeds ℕ

-- The globals: `sys`, the volatile `sys_rt_exec_*` bytes, the two parser modes that the real-time
-- code reads, the planner's ring indices, and the two outputs: OCR2B, which holds the pen, and the
-- coolant pin.
pub record Machine : Type 0 where
  pub state : State
  pub abort : Bool
  pub suspend : Suspend
  pub soft_limit : Bool
  pub step_control : StepControl
  pub f_override : ℕ
  pub r_override : ℕ
  pub spindle_speed_ovr : ℕ
  pub spindle_stop_ovr : SpindleStop
  pub report_ovr_counter : ℕ
  pub report_wco_counter : ℕ
  pub rt_exec_state : ExecState
  pub rt_exec_alarm : ℕ
  pub rt_exec_motion_override : MotionOverride
  pub rt_exec_accessory_override : AccessoryOverride
  pub modal_spindle : Spindle
  pub modal_coolant : Bool
  pub plan : Indices
  pub planning : Planning
  pub ocr2b : ℕ
  pub flood_pin : Bool
  pub calls : List Call

abbrev pub call : Call → Machine → Machine
call c m = record m { calls = c ∷ m.calls }

-- A call of `planner_recalculate`: what it does to the indices. Its call of
-- `st_update_plan_block_parameters` only tells the stepper to look at the speeds again.
abbrev pub recalculate : Machine → Machine
recalculate m = record m {
  plan =
      (planner_recalculate m.planning.number
        (record { indices = m.plan; blocks = m.planning.speeds 0; updates = 0 })).indices;
  planning = record (m.planning) { speeds = λ n. m.planning.speeds (suc n) };
}

abbrev pub plan_cycle_reinitialize : Machine → Machine
plan_cycle_reinitialize m =
    let m' = call Call.st_update_plan_block_parameters m in
    recalculate (record m' { plan = record (m'.plan) { planned = m'.plan.tail } })
