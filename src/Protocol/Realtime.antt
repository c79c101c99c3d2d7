-- ===== src/Protocol/Realtime.antt =====
-- `protocol_exec_rt_system` itself, from the alarm to the reload of the segment buffer. The loop that
-- holds the system after a critical alarm waits for the interrupts, which arrive as a list.
use mathlib.Core.Option
use uno_pen_plotter.Prelude.{
  ℕ, Bool, true, false, ◌||◌, Option, none, some, List, [], ◌∷◌, ◌==◌, if◌then◌else◌,
}
use uno_pen_plotter.System.{
  Machine, State, ExecState, MotionOverride, AccessoryOverride, any_exec_state, Call, call,
}
use uno_pen_plotter.System.Flags.{
  system_set_exec_state_flag, system_clear_exec_state_flag, system_set_exec_motion_override_flag,
  system_set_exec_accessory_override_flag, system_set_exec_alarm, system_clear_exec_alarm,
}
use uno_pen_plotter.System.Exec
use uno_pen_plotter.Outputs.{mc_reset}
use uno_pen_plotter.Protocol.Hold.{exec_holds}
use uno_pen_plotter.Protocol.Cycle.{exec_cycle_start, exec_cycle_stop}
use uno_pen_plotter.Protocol.Override.{exec_motion_overrides, exec_accessory_overrides}

-- What an interrupt does to the shared state: set flags, raise an alarm, or reset.
pub data Interrupt : Type 0 where
  set_state : ExecState → Interrupt
  set_motion : MotionOverride → Interrupt
  set_accessory : AccessoryOverride → Interrupt
  raise : ℕ → Interrupt
  reset_command : Interrupt

unfoldable pub interrupt : Interrupt → Machine → Machine
interrupt (set_state mask) m = system_set_exec_state_flag mask m
interrupt (set_motion mask) m = system_set_exec_motion_override_flag mask m
interrupt (set_accessory mask) m = system_set_exec_accessory_override_flag mask m
interrupt (raise code) m = system_set_exec_alarm code m
interrupt reset_command m = mc_reset m

-- `do { } while (bit_isfalse(sys_rt_exec_state,EXEC_RESET));` `none`: still waiting when the list of
-- interrupts ends.
unfoldable pub wait_reset : List Interrupt → Machine → Option Machine
wait_reset [] m = if m.rt_exec_state.reset then some m else none
wait_reset (i ∷ is) m =
    let rest = wait_reset is (interrupt i m) in if m.rt_exec_state.reset then some m else rest

abbrev pub alarm_hard_limit : ℕ
alarm_hard_limit = 1

abbrev pub alarm_soft_limit : ℕ
alarm_soft_limit = 2

abbrev pub is_critical : ℕ → Bool
is_critical code = code == alarm_hard_limit || code == alarm_soft_limit

-- A critical alarm clears any reset that is pending, and waits for a new one.
unfoldable pub alarm_wait : List Interrupt → ℕ → Machine → Option Machine
alarm_wait is rt_exec m =
    if is_critical rt_exec
    then wait_reset is (system_clear_exec_state_flag Exec.reset (call Call.report_critical_event m))
    else some m

-- The machine in ALARM, the alarm reported.
abbrev pub alarmed : Machine → Machine
alarmed m = call (Call.report_alarm_message m.rt_exec_alarm) (record m { state = State.alarm })

unfoldable pub exec_alarm : List Interrupt → Machine → Option Machine
exec_alarm is m =
    if m.rt_exec_alarm == 0
    then some m
    else Option.map system_clear_exec_alarm (alarm_wait is m.rt_exec_alarm (alarmed m))

unfoldable pub exec_status_report : ExecState → Machine → Machine
exec_status_report rt_exec m =
    if rt_exec.status_report
    then system_clear_exec_state_flag Exec.status_report (call Call.report_realtime_status m)
    else m

-- The branch `if (rt_exec)` on the copied state flags, when EXEC_RESET is not among them.
unfoldable pub exec_state_flags : ExecState → Machine → Machine
exec_state_flags rt_exec m =
    if any_exec_state rt_exec
    then exec_cycle_stop rt_exec
        (exec_cycle_start rt_exec (exec_holds rt_exec (exec_status_report rt_exec m)))
    else m

-- sys.state & (STATE_CYCLE | STATE_HOLD | STATE_SAFETY_DOOR | STATE_HOMING | STATE_SLEEP | STATE_JOG)
abbrev pub is_moving : State → Bool
is_moving State.idle = false
is_moving State.alarm = false
is_moving State.check_mode = false
is_moving _ = true

unfoldable pub reload_segments : Machine → Machine
reload_segments m = if is_moving m.state then call Call.st_prep_buffer m else m

-- After the alarm: abort on a reset, else serve the flags and the overrides.
unfoldable pub exec_flags : Machine → Machine
exec_flags m =
    let rt_exec = m.rt_exec_state in
    if rt_exec.reset
    then record m { abort = true }
    else reload_segments
        (exec_accessory_overrides (exec_motion_overrides (exec_state_flags rt_exec m)))

unfoldable pub protocol_exec_rt_system : List Interrupt → Machine → Option Machine
protocol_exec_rt_system is m = Option.map exec_flags (exec_alarm is m)
