-- ===== src/System/Flags.antt =====
-- Setting and clearing the real-time flags (grbl/system.c), each an atomic `|=` or `&= ~`, and the
-- control pins' interrupt.
use uno_pen_plotter.Prelude.{ℕ, not, ◌&&◌, ◌||◌}
use uno_pen_plotter.System.{
  Machine, ExecState, MotionOverride, AccessoryOverride, no_motion_override, no_accessory_override,
}

abbrev pub or_exec_state : ExecState → ExecState → ExecState
or_exec_state mask e = record {
  status_report = mask.status_report || e.status_report;
  cycle_start = mask.cycle_start || e.cycle_start;
  cycle_stop = mask.cycle_stop || e.cycle_stop;
  feed_hold = mask.feed_hold || e.feed_hold;
  reset = mask.reset || e.reset;
  safety_door = mask.safety_door || e.safety_door;
  motion_cancel = mask.motion_cancel || e.motion_cancel;
  sleep = mask.sleep || e.sleep;
}

abbrev pub and_not_exec_state : ExecState → ExecState → ExecState
and_not_exec_state mask e = record {
  status_report = not mask.status_report && e.status_report;
  cycle_start = not mask.cycle_start && e.cycle_start;
  cycle_stop = not mask.cycle_stop && e.cycle_stop;
  feed_hold = not mask.feed_hold && e.feed_hold;
  reset = not mask.reset && e.reset;
  safety_door = not mask.safety_door && e.safety_door;
  motion_cancel = not mask.motion_cancel && e.motion_cancel;
  sleep = not mask.sleep && e.sleep;
}

abbrev pub system_set_exec_state_flag : ExecState → Machine → Machine
system_set_exec_state_flag mask m = record m { rt_exec_state = or_exec_state mask m.rt_exec_state }

abbrev pub system_clear_exec_state_flag : ExecState → Machine → Machine
system_clear_exec_state_flag mask m = record m {
  rt_exec_state = and_not_exec_state mask m.rt_exec_state;
}

abbrev pub system_set_exec_alarm : ℕ → Machine → Machine
system_set_exec_alarm code m = record m { rt_exec_alarm = code }

abbrev pub system_clear_exec_alarm : Machine → Machine
system_clear_exec_alarm m = record m { rt_exec_alarm = 0 }

abbrev pub system_set_exec_motion_override_flag : MotionOverride → Machine → Machine
system_set_exec_motion_override_flag mask m = record m {
  rt_exec_motion_override = record {
    feed_reset = mask.feed_reset || e.feed_reset;
    feed_coarse_plus = mask.feed_coarse_plus || e.feed_coarse_plus;
    feed_coarse_minus = mask.feed_coarse_minus || e.feed_coarse_minus;
    feed_fine_plus = mask.feed_fine_plus || e.feed_fine_plus;
    feed_fine_minus = mask.feed_fine_minus || e.feed_fine_minus;
    rapid_reset = mask.rapid_reset || e.rapid_reset;
    rapid_medium = mask.rapid_medium || e.rapid_medium;
    rapid_low = mask.rapid_low || e.rapid_low;
  };
}
  where
    open m use {rt_exec_motion_override as e}

abbrev pub system_set_exec_accessory_override_flag : AccessoryOverride → Machine → Machine
system_set_exec_accessory_override_flag mask m = record m {
  rt_exec_accessory_override = record {
    spindle_reset = mask.spindle_reset || e.spindle_reset;
    spindle_coarse_plus = mask.spindle_coarse_plus || e.spindle_coarse_plus;
    spindle_coarse_minus = mask.spindle_coarse_minus || e.spindle_coarse_minus;
    spindle_fine_plus = mask.spindle_fine_plus || e.spindle_fine_plus;
    spindle_fine_minus = mask.spindle_fine_minus || e.spindle_fine_minus;
    spindle_stop = mask.spindle_stop || e.spindle_stop;
    flood_toggle = mask.flood_toggle || e.flood_toggle;
    mist_toggle = mask.mist_toggle || e.mist_toggle;
  };
}
  where
    open m use {rt_exec_accessory_override as e}

abbrev pub system_clear_exec_motion_overrides : Machine → Machine
system_clear_exec_motion_overrides m = record m { rt_exec_motion_override = no_motion_override }

abbrev pub system_clear_exec_accessory_overrides : Machine → Machine
system_clear_exec_accessory_overrides m = record m {
  rt_exec_accessory_override = no_accessory_override;
}
