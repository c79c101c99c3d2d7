-- ===== src/Protocol/Cycle.antt =====
-- `protocol_exec_rt_system`: starting and stopping a cycle.
use uno_pen_plotter.Prelude.{Bool, true, false, not, ◌&&◌, ◌||◌, Option, none, some, if◌then◌else◌}
use uno_pen_plotter.System.{
  Machine, State, ExecState, suspend_disable, step_control_normal_op, any_spindle_stop, Call, call,
  plan_cycle_reinitialize,
}
use uno_pen_plotter.System.Flags.{system_clear_exec_state_flag}
use uno_pen_plotter.System.Exec
use uno_pen_plotter.Planner.{plan_get_current_block, plan_reset_buffer}
use uno_pen_plotter.Protocol.Hold.{is_idle, is_safety_door, is_hold}

abbrev pub is_some {ℓ} : {A : Type ℓ} → Option A → Bool
is_some none = false
is_some (some _) = true

-- sys.state & (STATE_HOLD | STATE_SAFETY_DOOR | STATE_SLEEP)
abbrev pub is_hold_door_sleep : State → Bool
is_hold_door_sleep State.hold = true
is_hold_door_sleep State.safety_door = true
is_hold_door_sleep State.sleep = true
is_hold_door_sleep _ = false

-- A closed door: go on if the restore is complete, else begin it once the retract is complete.
unfoldable pub resume_door : Machine → Machine
resume_door m =
    if is_safety_door m.state && not m.suspend.safety_door_ajar
    then if m.suspend.restore_complete
      then record m { state = State.idle }
      else if m.suspend.retract_complete
      then record m { suspend = record (m.suspend) { initiate_restore = true } }
      else m
    else m

-- From IDLE, or from a completed hold: run the queued blocks, or go back to IDLE.
unfoldable pub start_cycle : Machine → Machine
unfolding plan_get_current_block
start_cycle m =
    if is_idle m.state || (is_hold m.state && m.suspend.hold_complete)
    then if is_hold m.state && any_spindle_stop m.spindle_stop_ovr
      then record m { spindle_stop_ovr = record (m.spindle_stop_ovr) { restore_cycle = true } }
      else if is_some (plan_get_current_block m.plan) && not m.suspend.motion_cancel
      then call Call.st_wake_up (
          call Call.st_prep_buffer (record m {
            step_control = step_control_normal_op;
            suspend = suspend_disable;
            state = State.cycle;
          }))
      else record m {
        step_control = step_control_normal_op;
        suspend = suspend_disable;
        state = State.idle;
      }
    else m

unfoldable pub exec_cycle_start : ExecState → Machine → Machine
exec_cycle_start rt_exec m =
    if rt_exec.cycle_start
    then (let m' =
          if rt_exec.feed_hold || (rt_exec.motion_cancel || rt_exec.safety_door)
          then m
          else start_cycle (resume_door m) in
        system_clear_exec_state_flag Exec.cycle_start m')
    else m

-- The steppers have stopped for a hold: ready to resume.
unfoldable pub hold_stopped : Machine → Machine
hold_stopped m =
    let m₁ = plan_cycle_reinitialize m in
    let m₂ =
      if m₁.step_control.execute_hold
      then record m₁ { suspend = record (m₁.suspend) { hold_complete = true } }
      else m₁ in
    record m₂ {
      step_control = record (m₂.step_control) { execute_hold = false; execute_sys_motion = false };
    }

-- A cancelled jog flushes the planner and the steppers.
unfoldable pub flush_jog : Machine → Machine
unfolding plan_reset_buffer
flush_jog m =
    if m.suspend.jog_cancel
    then call Call.plan_sync_position (
        call Call.gc_sync_position (
          call Call.st_reset
            (record m { step_control = step_control_normal_op; plan = plan_reset_buffer })))
    else m

-- The motion is complete: back to IDLE, or to SAFETY_DOOR if the door opened during a jog.
unfoldable pub motion_complete : Machine → Machine
motion_complete m =
    let m' = flush_jog m in
    if m'.suspend.safety_door_ajar
    then record m' {
      suspend = record (m'.suspend) { jog_cancel = false; hold_complete = true };
      state = State.safety_door;
    }
    else record m' { suspend = suspend_disable; state = State.idle }

unfoldable pub exec_cycle_stop : ExecState → Machine → Machine
exec_cycle_stop rt_exec m =
    if rt_exec.cycle_stop
    then (let m' =
          if is_hold_door_sleep m.state && (not m.soft_limit && not m.suspend.jog_cancel)
          then hold_stopped m
          else motion_complete m in
        system_clear_exec_state_flag Exec.cycle_stop m')
    else m
