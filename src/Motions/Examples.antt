-- ===== src/Motions/Examples.antt =====
-- The theorems on motions at concrete lines, with thousandths as integers for `float`.
use uno_pen_plotter.Prelude.{
  ◌+◌, ◌*◌, ◌/◌, ◌≡◌, ◌≢◌, refl, true, false, Option, none, some, List, [], ◌∷◌, arith, length,
}
use uno_pen_plotter.Prelude.Int.{ℤ, pos, negsuc, pos_part, ◌+ℤ◌, ◌-ℤ◌, to_int32}
use uno_pen_plotter.System.{Machine, State, cw, disable}
use uno_pen_plotter.System.Samples.{resting, cycling}
use uno_pen_plotter.Outputs.{mc_reset}
use uno_pen_plotter.Planner.{plan_check_full_buffer, plan_discard_current_block}
use uno_pen_plotter.Planner.Counts.{IsRing}
use uno_pen_plotter.Settings.Examples.{sample}
use uno_pen_plotter.Protocol.Realtime.{
  reset_command, interrupt, wait_reset, alarm_wait, exec_alarm, exec_flags, exec_state_flags,
  reload_segments, protocol_exec_rt_system,
}
use uno_pen_plotter.Protocol.Suspend.{rt_pass}
use uno_pen_plotter.Protocol.Override.{exec_motion_overrides, exec_accessory_overrides}
use uno_pen_plotter.Gcode.{Vector, PlanData, x_index, y_index, z_index}
use uno_pen_plotter.Gcode.Thousandths.{thousandths, thousandths_mul, thousandths_div}
use uno_pen_plotter.Motions.{Round, Parts, Plotter}
use uno_pen_plotter.Motions.Waits.{protocol_execute_realtime}
use uno_pen_plotter.Motions.Limits.{limits_soft_check, system_check_travel_limits, limit_interrupt}
use uno_pen_plotter.Motions.Lines.{line_check, line_room, plan_buffer_line, queue_line, mc_line}
use uno_pen_plotter.Motions.Arcs.{Arc, arc_segments, arc_lines, angular_travel, mc_arc}
use uno_pen_plotter.Motions.SoftLimits.{soft_limit_stops}
use uno_pen_plotter.Motions.Stops.{soft_limit_ends}
use uno_pen_plotter.Motions.LimitStops.{IsOff, Stopped, limit_stops}
use uno_pen_plotter.Motions.Queue.{Queues, mc_line-Queues}
use uno_pen_plotter.Motions.ArcQueue.{Extends, mc_arc-Extends}

-- Every arc has four segments; the angle and the correction are constants.
abbrev parts : Parts ℤ
parts = record {
  float = thousandths;
  settings = record sample { steps_per_mm = λ i. pos 80000; max_travel = λ i. negsuc 199999 };
  lround = λ a. pos ((pos_part a + 500) / 1000);
  pi = pos 3142;
  atan2 = λ y x. pos 0;
  cos = λ a. pos 1000;
  sin = λ a. pos 0;
  floor_uint16 = λ a. 4;
  from_uint16 = λ n. pos (n * 1000);
  block_spindle = λ block. disable;
}

abbrev quiet : Round
quiet = record {
  pass = record { before = []; during = [] };
  suspended = [];
  discarded = 1;
  synced = none;
  probed = false;
}

abbrev resets : Round
resets = record quiet { pass = record { before = []; during = reset_command ∷ [] } }

abbrev aborts : Round
aborts = record quiet { pass = record { before = reset_command ∷ []; during = reset_command ∷ [] } }

abbrev plotter : List Round → Plotter ℤ
plotter rounds = record {
  machine = resting;
  rounds = rounds;
  position = record { x_axis = pos 0; y_axis = pos 0; z_axis = pos 0 };
  queued = [];
  probe_active = false;
}

abbrev outside : Vector ℤ
outside = record { x_axis = pos 500000; y_axis = pos 0; z_axis = pos 0 }

abbrev inside : Vector ℤ
inside = record { x_axis = pos 100000; y_axis = pos 150000; z_axis = pos 0 }

abbrev pl_data : PlanData ℤ
pl_data = record {
  feed_rate = pos 100000;
  spindle_speed = pos 0;
  rapid_motion = false;
  no_feed_override = false;
  inverse_time = false;
  spindle = cw;
  coolant = false;
}

abbrev value : {A : Type 0} → Option A → A → A
value none a = a
value (some b) a = b

abbrev stopped : Plotter ℤ
stopped = value (mc_line parts outside pl_data (plotter (resets ∷ resets ∷ []))) (plotter [])

stops : mc_line parts outside pl_data (plotter (resets ∷ resets ∷ [])) ≡ some stopped
unfolding mc_line protocol_execute_realtime rt_pass protocol_exec_rt_system exec_alarm alarm_wait
    wait_reset interrupt mc_reset exec_flags line_check limits_soft_check ◌-ℤ◌ line_room
stops = refl

soft_limit_stops_example : (stopped.machine.abort ≡ true) × (stopped.queued ≡ [])
unfolding system_check_travel_limits ◌-ℤ◌
soft_limit_stops_example =
    soft_limit_stops parts outside pl_data (plotter (resets ∷ resets ∷ [])) stopped refl refl refl
      stops

soft_limit_ends_example : mc_line parts outside pl_data (plotter (resets ∷ resets ∷ [])) ≢ none
unfolding system_check_travel_limits ◌-ℤ◌
soft_limit_ends_example =
    soft_limit_ends parts outside pl_data resets resets [] (plotter (resets ∷ resets ∷ [])) refl
      refl refl refl refl tt tt

-- A limit hit while cycling, after the pass.
abbrev hit : Machine
hit = value (protocol_exec_rt_system (reset_command ∷ []) (limit_interrupt true cycling)) resting

limit_stops_example :
    Stopped cycling (limit_interrupt true cycling)
    × ((hit.abort ≡ true) × (hit.state ≡ State.alarm))
    × IsOff hit
unfolding protocol_exec_rt_system exec_alarm alarm_wait wait_reset interrupt mc_reset
    limit_interrupt exec_flags
limit_stops_example = limit_stops (reset_command ∷ []) cycling hit refl refl refl refl

resting-IsRing : IsRing resting.plan
resting-IsRing = ground arith

-- The line, with what comes meanwhile.
abbrev queued : Plotter ℤ
queued = value (mc_line parts inside pl_data (plotter (quiet ∷ []))) (plotter [])

queues : mc_line parts inside pl_data (plotter (quiet ∷ [])) ≡ some queued
unfolding mc_line protocol_execute_realtime rt_pass protocol_exec_rt_system exec_alarm exec_flags
    line_check limits_soft_check system_check_travel_limits ◌-ℤ◌ line_room reload_segments
    exec_accessory_overrides exec_motion_overrides exec_state_flags plan_check_full_buffer
    plan_discard_current_block queue_line plan_buffer_line thousandths_mul to_int32
queues = refl

mc_line-Queues_example : Queues inside pl_data [] queued
mc_line-Queues_example =
    mc_line-Queues parts inside pl_data (plotter (quiet ∷ [])) queued resting-IsRing queues

abbrev arc : Arc ℤ
arc = record {
  target = record { x_axis = pos 0; y_axis = pos 100000; z_axis = pos 0 };
  offset = record { x_axis = pos 50000; y_axis = pos 0; z_axis = pos 0 };
  radius = pos 50000;
  axis_0 = x_index;
  axis_1 = y_index;
  axis_linear = z_index;
  is_clockwise_arc = true;
}

abbrev drawn : Vector ℤ × Plotter ℤ
drawn =
    value (mc_arc parts arc pl_data inside (plotter (quiet ∷ aborts ∷ aborts ∷ [])))
      (inside, plotter [])

draws :
    mc_arc parts arc pl_data inside (plotter (quiet ∷ aborts ∷ aborts ∷ []))
    ≡ some (drawn.0, drawn.1)
unfolding mc_arc mc_line protocol_execute_realtime rt_pass protocol_exec_rt_system exec_alarm
    alarm_wait wait_reset interrupt mc_reset exec_flags line_check limits_soft_check line_room ◌-ℤ◌
    arc_segments arc_lines ◌+ℤ◌ thousandths_mul thousandths_div angular_travel reload_segments
    exec_accessory_overrides exec_motion_overrides exec_state_flags plan_check_full_buffer
    plan_discard_current_block queue_line plan_buffer_line to_int32
draws = refl

mc_arc-Extends_example : Extends 4 [] drawn.1
unfolding arc_segments
mc_arc-Extends_example =
    mc_arc-Extends parts arc pl_data inside drawn.0 (plotter (quiet ∷ aborts ∷ aborts ∷ [])) drawn.1
      resting-IsRing draws

queues_one : length queued.queued ≡ 1
unfolding mc_line protocol_execute_realtime rt_pass protocol_exec_rt_system exec_alarm exec_flags
    line_check limits_soft_check system_check_travel_limits ◌-ℤ◌ line_room reload_segments
    exec_accessory_overrides exec_motion_overrides exec_state_flags plan_check_full_buffer
    plan_discard_current_block queue_line plan_buffer_line thousandths_mul to_int32
queues_one = refl

draws_one : length drawn.1.queued ≡ 1
unfolding mc_arc mc_line protocol_execute_realtime rt_pass protocol_exec_rt_system exec_alarm
    alarm_wait wait_reset interrupt mc_reset exec_flags line_check limits_soft_check line_room ◌-ℤ◌
    arc_segments arc_lines ◌+ℤ◌ thousandths_mul thousandths_div angular_travel reload_segments
    exec_accessory_overrides exec_motion_overrides exec_state_flags plan_check_full_buffer
    plan_discard_current_block queue_line plan_buffer_line to_int32
draws_one = refl
