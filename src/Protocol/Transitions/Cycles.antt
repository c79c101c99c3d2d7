-- ===== src/Protocol/Transitions/Cycles.antt =====
-- The state after the requests to start or to stop a cycle.
use uno_pen_plotter.Prelude.{◌≡◌, Bool, true, false, not, ◌&&◌, ◌||◌, arith, if◌then◌else◌}
use uno_pen_plotter.System.{Machine, State, ExecState}
use uno_pen_plotter.Protocol.Hold.{is_idle, is_hold, is_safety_door}
use uno_pen_plotter.Protocol.Cycle.{
  is_hold_door_sleep, resume_door, start_cycle, exec_cycle_start, hold_stopped, flush_jog,
  motion_complete, exec_cycle_stop,
}

-- The states in which a cycle start can change the state.
abbrev pub is_startable : State → Bool
is_startable State.idle = true
is_startable State.hold = true
is_startable State.safety_door = true
is_startable _ = false

resume_door_lem :
    (m : Machine)
    → (resume_door m).state ≡ (
        if is_safety_door m.state && (not m.suspend.safety_door_ajar && m.suspend.restore_complete)
        then State.idle
        else m.state)
unfolding resume_door
resume_door_lem m = ground arith

start_cycle-kept :
    (m : Machine) → is_idle m.state || is_hold m.state ≡ false → (start_cycle m).state ≡ m.state
unfolding start_cycle
start_cycle-kept m h = ground arith

-- In any other state than IDLE, HOLD and SAFETY_DOOR, and in SAFETY_DOOR as long as the door is ajar
-- or the restore is not complete, a cycle start does not change the state.
pub exec_cycle_start-kept :
    (rt : ExecState) (m : Machine)
    → is_startable m.state
        && (not (is_safety_door m.state)
            || (not m.suspend.safety_door_ajar && m.suspend.restore_complete))
      ≡ false
    → (exec_cycle_start rt m).state ≡ m.state
unfolding exec_cycle_start
exec_cycle_start-kept rt m h = ground (arith, resume_door_lem m, start_cycle-kept (resume_door m))

-- A cycle start that arrives together with a feed hold, a motion cancel or an opened door is dropped:
-- the state stays what it was.
pub exec_cycle_start-dropped :
    (rt : ExecState) (m : Machine)
    → (rt.feed_hold || (rt.motion_cancel || rt.safety_door)) ≡ true
    → (exec_cycle_start rt m).state ≡ m.state
unfolding exec_cycle_start
exec_cycle_start-dropped rt m h = ground arith

pub exec_cycle_start-jog_cancel :
    (rt : ExecState) (m : Machine)
    → is_startable m.state ≡ false
    → (exec_cycle_start rt m).suspend.jog_cancel ≡ m.suspend.jog_cancel
unfolding exec_cycle_start resume_door start_cycle
exec_cycle_start-jog_cancel rt m h = ground arith

hold_stopped-state : (m : Machine) → (hold_stopped m).state ≡ m.state
unfolding hold_stopped
hold_stopped-state m = ground arith

motion_complete-state :
    (m : Machine)
    → (motion_complete m).state
      ≡ (if m.suspend.safety_door_ajar then State.safety_door else State.idle)
unfolding motion_complete flush_jog
motion_complete-state m = ground arith

-- When the steppers stop, HOLD, SAFETY_DOOR and SLEEP are kept, unless a soft limit stopped the
-- motion or a jog was being cancelled; every other state becomes IDLE, or SAFETY_DOOR if the door was
-- opened. Without the flag nothing changes.
pub exec_cycle_stop-state :
    (rt : ExecState) (m : Machine)
    → (exec_cycle_stop rt m).state ≡ (
        if not rt.cycle_stop
          || (is_hold_door_sleep m.state && (not m.soft_limit && not m.suspend.jog_cancel))
        then m.state
        else if m.suspend.safety_door_ajar
        then State.safety_door
        else State.idle)
unfolding exec_cycle_stop
exec_cycle_stop-state rt m = ground (arith, hold_stopped-state m, motion_complete-state m)
