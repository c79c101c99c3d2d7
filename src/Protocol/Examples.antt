-- ===== src/Protocol/Examples.antt =====
-- The protocol's theorems at concrete machines and lines.
use uno_pen_plotter.Prelude.{◌≡◌, ◌≢◌, refl, true, false, none, some, [], ◌∷◌, arith}
use uno_pen_plotter.System.{Machine, State, Call, no_exec_state, no_motion_override}
use uno_pen_plotter.System.Samples.{resting, limit_hit, cycling}
use uno_pen_plotter.Outputs.{mc_reset}
use uno_pen_plotter.Protocol.Commands.{realtime_command}
use uno_pen_plotter.Protocol.Pins.{Control, control_interrupt, pins_like_characters}
use uno_pen_plotter.Protocol.Override.{new_override}
use uno_pen_plotter.Protocol.Realtime.{
  reset_command, set_motion, interrupt, wait_reset, alarm_wait, exec_alarm, exec_flags,
  protocol_exec_rt_system,
}
use uno_pen_plotter.Protocol.Bounds.{InRange, new_override_lem, rt_system-InRange}
use uno_pen_plotter.Protocol.Critical.{critical_aborts, rt_system_ends}
use uno_pen_plotter.Protocol.Transitions.Passes.{sleep_stays, lock_holds, feed_hold_wins}
use uno_pen_plotter.Protocol.Transitions.Holds.{exec_holds-state}
use uno_pen_plotter.Protocol.Transitions.Cycles.{exec_cycle_start-dropped}
use uno_pen_plotter.Protocol.Hold.{exec_holds}
use uno_pen_plotter.Protocol.Cycle.{exec_cycle_start}

-- `limit_hit` after the pass, a reset having come during the wait.
abbrev stopped : Machine
stopped = record limit_hit {
  state = State.alarm;
  abort = true;
  rt_exec_alarm = 0;
  rt_exec_state = record no_exec_state { reset = true };
  ocr2b = 9;
  flood_pin = false;
  calls = Call.report_critical_event ∷ Call.report_alarm_message 1 ∷ [];
}

limit_hit_stops : protocol_exec_rt_system (reset_command ∷ []) limit_hit ≡ some stopped
unfolding protocol_exec_rt_system exec_alarm alarm_wait wait_reset interrupt mc_reset exec_flags
limit_hit_stops = refl

critical_aborts_example : (stopped.abort ≡ true) × (stopped.state ≡ State.alarm)
critical_aborts_example =
    critical_aborts (reset_command ∷ []) limit_hit stopped refl limit_hit_stops

rt_system_ends_example :
    protocol_exec_rt_system (set_motion no_motion_override ∷ reset_command ∷ []) limit_hit ≢ none
rt_system_ends_example =
    rt_system_ends (set_motion no_motion_override ∷ reset_command ∷ []) limit_hit tt

limit_hit-InRange : InRange limit_hit
limit_hit-InRange = ground arith

rt_system-InRange_example : InRange stopped
rt_system-InRange_example =
    rt_system-InRange (reset_command ∷ []) limit_hit stopped limit_hit-InRange limit_hit_stops

new_override_lem_example : new_override false false true false true 10 ≡ 200
new_override_lem_example =
    new_override_lem false false true false true 10 (omega arith) (omega arith)

abbrev asleep : Machine
asleep = record resting {
  state = State.sleep;
  rt_exec_state = record no_exec_state { feed_hold = true; cycle_start = true; safety_door = true };
}

sleep_stays_example :
    (m' : Machine) × (protocol_exec_rt_system [] asleep ≡ some m') × (m'.state ≡ State.sleep)
sleep_stays_example = sleep_stays [] asleep refl refl refl refl

abbrev locked : Machine
locked = record resting {
  state = State.alarm;
  rt_exec_state = record no_exec_state { feed_hold = true; cycle_start = true };
}

locked_stays : protocol_exec_rt_system [] locked ≡ some (exec_flags locked)
unfolding protocol_exec_rt_system exec_alarm
locked_stays = refl

lock_holds_example : (exec_flags locked).state ≡ State.alarm
lock_holds_example = lock_holds [] locked (exec_flags locked) refl refl locked_stays

abbrev told_to_hold : Machine
told_to_hold = record cycling {
  rt_exec_state = record no_exec_state { feed_hold = true; cycle_start = true };
}

feed_hold_wins_example : (exec_flags told_to_hold).state ≡ State.hold
feed_hold_wins_example = feed_hold_wins told_to_hold refl refl refl refl refl refl

exec_holds-state_example :
    (exec_holds (record no_exec_state { safety_door = true; feed_hold = true }) cycling).state
    ≡ State.safety_door
exec_holds-state_example =
    exec_holds-state (record no_exec_state { safety_door = true; feed_hold = true }) cycling

exec_cycle_start-dropped_example :
    (exec_cycle_start (record no_exec_state { cycle_start = true; feed_hold = true }) resting).state
    ≡ State.idle
exec_cycle_start-dropped_example =
    exec_cycle_start-dropped (record no_exec_state { cycle_start = true; feed_hold = true }) resting
      refl

abbrev reset_and_hold : Control
reset_and_hold = record { reset = false; feed_hold = false; cycle_start = true }

pins_like_characters_example :
    control_interrupt reset_and_hold cycling ≡ realtime_command b'!' (realtime_command 24 cycling)
pins_like_characters_example = pins_like_characters reset_and_hold cycling
