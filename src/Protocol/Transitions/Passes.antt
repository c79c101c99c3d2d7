-- ===== src/Protocol/Transitions/Passes.antt =====
-- Whole passes of `protocol_exec_rt_system`, and of its part after the alarm.
use uno_pen_plotter.Prelude.{
  ◌≡◌, inl, inr, some, List, true, false, not, ◌&&◌, ◌||◌, arith, ◌==◌, if◌then◌else◌, Bool-cases,
}
use uno_pen_plotter.System.{Machine, State, ExecState, AccessoryOverride, no_accessory_override}
use uno_pen_plotter.System.Flags.{system_clear_exec_alarm}
use uno_pen_plotter.Outputs.{spindle_set_state}
use uno_pen_plotter.Protocol.Hold.{is_alarm_check, exec_holds}
use uno_pen_plotter.Protocol.Cycle.{exec_cycle_start}
use uno_pen_plotter.Protocol.Override.{
  exec_motion_overrides, exec_accessory_overrides, spindle_speed_override, spindle_stop_override,
  coolant_override,
}
use uno_pen_plotter.Protocol.Realtime.{
  Interrupt, is_critical, alarm_wait, alarmed, exec_alarm, exec_status_report, exec_state_flags,
  reload_segments, exec_flags, protocol_exec_rt_system,
}
use uno_pen_plotter.Protocol.Critical.{critical_aborts}
use uno_pen_plotter.Protocol.Transitions.Holds.{exec_holds-state, exec_holds-jog_cancel}
use uno_pen_plotter.Protocol.Transitions.Frame.{exec_holds-Keeps, exec_cycle_start-Keeps}
use uno_pen_plotter.Protocol.Transitions.Cycles.{
  exec_cycle_start-kept, exec_cycle_start-dropped, exec_cycle_start-jog_cancel,
  exec_cycle_stop-state,
}

motion_overrides-state : (m : Machine) → (exec_motion_overrides m).state ≡ m.state
unfolding exec_motion_overrides
motion_overrides-state m = ground arith

speed_override-state :
    (rt : AccessoryOverride) (m : Machine) → (spindle_speed_override rt m).state ≡ m.state
unfolding spindle_speed_override spindle_set_state
speed_override-state rt m = ground arith

stop_override-state :
    (rt : AccessoryOverride) (m : Machine) → (spindle_stop_override rt m).state ≡ m.state
unfolding spindle_stop_override
stop_override-state rt m = ground arith

coolant_override-state :
    (rt : AccessoryOverride) (m : Machine) → (coolant_override rt m).state ≡ m.state
unfolding coolant_override
coolant_override-state rt m = ground arith

accessory_overrides-state : (m : Machine) → (exec_accessory_overrides m).state ≡ m.state
unfolding exec_accessory_overrides
accessory_overrides-state m = ground (
  arith,
  speed_override-state rt m₁,
  stop_override-state rt (spindle_speed_override rt m₁),
  coolant_override-state rt (spindle_stop_override rt (spindle_speed_override rt m₁)),
)
  where
    rt : AccessoryOverride
    rt = m.rt_exec_accessory_override

    m₁ : Machine
    m₁ = record m { rt_exec_accessory_override = no_accessory_override }

reload_segments-state : (m : Machine) → (reload_segments m).state ≡ m.state
unfolding reload_segments
reload_segments-state m = ground arith

-- A pass leaves the state that serving the state flags gives; on a reset it leaves the state as it
-- was.
exec_flags-state :
    (m : Machine)
    → (exec_flags m).state
      ≡ (if m.rt_exec_state.reset then m.state else (exec_state_flags m.rt_exec_state m).state)
unfolding exec_flags
exec_flags-state m = ground (
  arith,
  motion_overrides-state m₁,
  accessory_overrides-state (exec_motion_overrides m₁),
  reload_segments-state (exec_accessory_overrides (exec_motion_overrides m₁)),
)
  where
    m₁ : Machine
    m₁ = exec_state_flags m.rt_exec_state m

status_report_lem :
    (rt : ExecState) (m : Machine)
    → ((exec_status_report rt m).state ≡ m.state)
      × ((exec_status_report rt m).soft_limit ≡ m.soft_limit)
      × ((exec_status_report rt m).suspend ≡ m.suspend)
unfolding exec_status_report
status_report_lem rt m = ground arith

sleep_flags :
    (m : Machine)
    → m.state ≡ State.sleep
    → m.soft_limit ≡ false
    → m.suspend.jog_cancel ≡ false
    → (exec_flags m).state ≡ State.sleep
unfolding exec_state_flags
sleep_flags m s l j = ground (
  arith,
  exec_flags-state m,
  status_report_lem rt m,
  exec_holds-state rt m₁,
  exec_holds-jog_cancel rt m₁,
  exec_holds-Keeps rt m₁,
  exec_cycle_start-kept rt m₂,
  exec_cycle_start-jog_cancel rt m₂,
  exec_cycle_start-Keeps rt m₂,
  exec_cycle_stop-state rt (exec_cycle_start rt m₂),
)
  where
    rt : ExecState
    rt = m.rt_exec_state

    m₁ : Machine
    m₁ = exec_status_report rt m

    m₂ : Machine
    m₂ = exec_holds rt m₁

lock_flags :
    (m : Machine)
    → is_alarm_check m.state ≡ true
    → m.rt_exec_state.cycle_stop ≡ false
    → (exec_flags m).state
      ≡ (if not m.rt_exec_state.reset && m.rt_exec_state.sleep then State.sleep else m.state)
unfolding exec_state_flags
lock_flags m a c = ground (
  arith,
  exec_flags-state m,
  status_report_lem rt m,
  exec_holds-state rt m₁,
  exec_cycle_start-kept rt m₂,
  exec_cycle_stop-state rt (exec_cycle_start rt m₂),
)
  where
    rt : ExecState
    rt = m.rt_exec_state

    m₁ : Machine
    m₁ = exec_status_report rt m

    m₂ : Machine
    m₂ = exec_holds rt m₁

-- A feed hold served during a cycle leads to HOLD, even when a cycle start, a status report, a motion
-- cancel or override requests are served in the same pass, if no reset, door or sleep request is
-- pending and the steppers do not report a stop.
pub feed_hold_wins :
    (m : Machine)
    → m.state ≡ State.cycle
    → m.rt_exec_state.feed_hold ≡ true
    → m.rt_exec_state.reset ≡ false
    → m.rt_exec_state.safety_door ≡ false
    → m.rt_exec_state.sleep ≡ false
    → m.rt_exec_state.cycle_stop ≡ false
    → (exec_flags m).state ≡ State.hold
unfolding exec_state_flags
feed_hold_wins m s h r d l c = ground (
  arith,
  exec_flags-state m,
  status_report_lem rt m,
  exec_holds-state rt m₁,
  exec_cycle_start-dropped rt m₂,
  exec_cycle_stop-state rt (exec_cycle_start rt m₂),
)
  where
    rt : ExecState
    rt = m.rt_exec_state

    m₁ : Machine
    m₁ = exec_status_report rt m

    m₂ : Machine
    m₂ = exec_holds rt m₁

-- Whatever requests are pending, a pass that starts in SLEEP with no alarm pending, no soft limit marked
-- and no jog being cancelled returns, and leaves the system in SLEEP.
pub sleep_stays :
    (is : List Interrupt) (m : Machine)
    → m.state ≡ State.sleep
    → m.soft_limit ≡ false
    → m.suspend.jog_cancel ≡ false
    → m.rt_exec_alarm ≡ 0
    → (m' : Machine) × (protocol_exec_rt_system is m ≡ some m') × (m'.state ≡ State.sleep)
unfolding protocol_exec_rt_system exec_alarm
sleep_stays is m s l j a = (exec_flags m, ground arith, sleep_flags m s l j)

-- The machine after an alarm that is not critical.
abbrev alarm_reported : Machine → Machine
alarm_reported m = system_clear_exec_alarm (alarmed m)

-- A pass that starts in ALARM or in CHECK_MODE and returns, with no stop of the steppers reported before
-- it, ends in SLEEP if a sleep request is pending, and neither a reset nor a critical alarm is. Else it
-- ends in ALARM if an alarm was pending, and in the state of before if none was.
pub lock_holds :
    (is : List Interrupt) (m m' : Machine)
    → is_alarm_check m.state ≡ true
    → m.rt_exec_state.cycle_stop ≡ false
    → protocol_exec_rt_system is m ≡ some m'
    → m'.state ≡ (
        if not (m.rt_exec_state.reset || is_critical m.rt_exec_alarm) && m.rt_exec_state.sleep
        then State.sleep
        else if m.rt_exec_alarm == 0
        then m.state
        else State.alarm)
unfolding protocol_exec_rt_system exec_alarm alarm_wait
lock_holds is m m' a c e = elim (Bool-cases (is_critical m.rt_exec_alarm)) [
  | inl critical ↦ ground (arith, critical_aborts is m m' critical)
  | inr other ↦ ground (arith, lock_flags m a c, lock_flags (alarm_reported m))
]
