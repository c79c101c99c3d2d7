-- ===== src/Protocol/Hold.antt =====
-- `protocol_exec_rt_system`: the requests that stop a motion, in the order in which it serves them.
use uno_pen_plotter.Prelude.{Bool, true, false, not, ◌&&◌, ◌||◌, if◌then◌else◌}
use uno_pen_plotter.System.{
  Machine, State, ExecState, StepControl, suspend_disable, step_control_normal_op, Call, call,
}
use uno_pen_plotter.System.Flags.{system_clear_exec_state_flag}
use uno_pen_plotter.System.Exec

abbrev pub is_idle : State → Bool
is_idle State.idle = true
is_idle _ = false

abbrev pub is_alarm : State → Bool
is_alarm State.alarm = true
is_alarm _ = false

abbrev pub is_jog : State → Bool
is_jog State.jog = true
is_jog _ = false

abbrev pub is_safety_door : State → Bool
is_safety_door State.safety_door = true
is_safety_door _ = false

abbrev pub is_sleep : State → Bool
is_sleep State.sleep = true
is_sleep _ = false

abbrev pub is_hold : State → Bool
is_hold State.hold = true
is_hold _ = false

-- sys.state & (STATE_ALARM | STATE_CHECK_MODE)
abbrev pub is_alarm_check : State → Bool
is_alarm_check State.alarm = true
is_alarm_check State.check_mode = true
is_alarm_check _ = false

-- sys.state & (STATE_CYCLE | STATE_JOG)
abbrev pub is_cycle_jog : State → Bool
is_cycle_jog State.cycle = true
is_cycle_jog State.jog = true
is_cycle_jog _ = false

-- sys.state & (STATE_SAFETY_DOOR | STATE_JOG | STATE_SLEEP)
abbrev pub is_door_jog_sleep : State → Bool
is_door_jog_sleep State.safety_door = true
is_door_jog_sleep State.jog = true
is_door_jog_sleep State.sleep = true
is_door_jog_sleep _ = false

-- STEP_CONTROL_EXECUTE_HOLD
abbrev pub step_control_execute_hold : StepControl
step_control_execute_hold = record step_control_normal_op { execute_hold = true }

-- In CYCLE or JOG: start braking, and mark a jog as cancelled unless the request is to sleep.
unfoldable pub motion_hold : ExecState → Machine → Machine
motion_hold rt_exec m =
    if is_cycle_jog m.state && not (m.suspend.motion_cancel || m.suspend.jog_cancel)
    then (let m' = record (call Call.st_update_plan_block_parameters m) {
      step_control = step_control_execute_hold;
    } in
        if is_jog m'.state && not rt_exec.sleep
        then record m' { suspend = record (m'.suspend) { jog_cancel = true } }
        else m')
    else m

-- IDLE is held at once.
unfoldable pub idle_hold : Machine → Machine
idle_hold m =
    if is_idle m.state
    then record m { suspend = record suspend_disable { hold_complete = true } }
    else m

unfoldable pub motion_cancel : ExecState → Machine → Machine
motion_cancel rt_exec m =
    if rt_exec.motion_cancel && not (is_jog m.state)
    then record m { suspend = record (m.suspend) { motion_cancel = true } }
    else m

unfoldable pub feed_hold : ExecState → Machine → Machine
feed_hold rt_exec m =
    if rt_exec.feed_hold && not (is_door_jog_sleep m.state)
    then record m { state = State.hold }
    else m

-- The door opened: unless a jog is still being cancelled, a restore under way is taken back, and the
-- state becomes SAFETY_DOOR (a sleeping system stays asleep).
unfoldable pub door_state : Machine → Machine
door_state m =
    let m' =
      if is_safety_door m.state && m.suspend.initiate_restore
      then record m {
        suspend = record (m.suspend) {
          retract_complete = false;
          initiate_restore = false;
          restore_complete = false;
          restart_retract = true;
        };
      }
      else m in
    if is_sleep m'.state then m' else record m' { state = State.safety_door }

unfoldable pub safety_door : ExecState → Machine → Machine
safety_door rt_exec m =
    if rt_exec.safety_door
    then (let m' = call Call.report_safety_door_ajar m in
        let m'' = if m'.suspend.jog_cancel then m' else door_state m' in
        record m'' { suspend = record (m''.suspend) { safety_door_ajar = true } })
    else m

unfoldable pub go_to_sleep : ExecState → Machine → Machine
go_to_sleep rt_exec m =
    if rt_exec.sleep
    then (let m' =
          if is_alarm m.state
          then record m {
            suspend = record (m.suspend) { retract_complete = true; hold_complete = true };
          }
          else m in
        record m' { state = State.sleep })
    else m

-- The requests that ALARM and CHECK_MODE refuse.
unfoldable pub hold_requests : ExecState → Machine → Machine
hold_requests rt_exec m =
    safety_door rt_exec
      (feed_hold rt_exec (motion_cancel rt_exec (idle_hold (motion_hold rt_exec m))))

-- The whole branch on EXEC_MOTION_CANCEL | EXEC_FEED_HOLD | EXEC_SAFETY_DOOR | EXEC_SLEEP.
unfoldable pub exec_holds : ExecState → Machine → Machine
exec_holds rt_exec m =
    if rt_exec.motion_cancel || (rt_exec.feed_hold || (rt_exec.safety_door || rt_exec.sleep))
    then system_clear_exec_state_flag Exec.holds
        (go_to_sleep rt_exec (if is_alarm_check m.state then m else hold_requests rt_exec m))
    else m
