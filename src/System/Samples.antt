-- ===== src/System/Samples.antt =====
-- Machines for the examples: one at rest, as after a start, and variations.
use uno_pen_plotter.Prelude.{ℕ, ◌+◌, ◌*◌, true, false, [], ltb, ◌==◌}
use uno_pen_plotter.Planner.Recalculate.{Number}
use uno_pen_plotter.System.{
  Machine, State, disable, suspend_disable, step_control_normal_op, spindle_stop_ovr_disabled,
  no_exec_state, no_motion_override, no_accessory_override,
}

abbrev naturals : Number ℕ
naturals = record { two = 2; add = ◌+◌; mul = ◌*◌; lt = ltb; eq = ◌==◌ }

abbrev pub resting : Machine
resting = record {
  state = State.idle;
  abort = false;
  suspend = suspend_disable;
  soft_limit = false;
  step_control = step_control_normal_op;
  f_override = 100;
  r_override = 100;
  spindle_speed_ovr = 100;
  spindle_stop_ovr = spindle_stop_ovr_disabled;
  report_ovr_counter = 0;
  report_wco_counter = 0;
  rt_exec_state = no_exec_state;
  rt_exec_alarm = 0;
  rt_exec_motion_override = no_motion_override;
  rt_exec_accessory_override = no_accessory_override;
  modal_spindle = disable;
  modal_coolant = false;
  plan = record { tail = 3; head = 5; next_head = 6; planned = 3 };
  planning = record {
    number = naturals;
    speeds = λ n i. record {
      entry_speed_sqr = 0;
      max_entry_speed_sqr = 100;
      acceleration = 3;
      millimeters = 5;
    };
  };
  ocr2b = 9;
  flood_pin = false;
  calls = [];
}

-- A hard limit hit while cycling, with the coolant on.
abbrev pub limit_hit : Machine
limit_hit = record resting { state = State.cycle; rt_exec_alarm = 1; flood_pin = true; ocr2b = 8 }

abbrev pub cycling : Machine
cycling = record resting { state = State.cycle; ocr2b = 8 }
