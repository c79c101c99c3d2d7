-- ===== src/Motions/Cycles.antt =====
-- `mc_probe_cycle` and `mc_homing_cycle` (grbl/motion_control.c).
use uno_pen_plotter.Prelude.{
  ℕ, Bool, true, false, not, ◌&&◌, ◌||◌, Option, some, List, if◌then◌else◌,
}
use uno_pen_plotter.Prelude.Int.{ℤ}
use uno_pen_plotter.System.{Machine, disable, Call, call}
use uno_pen_plotter.System.Flags.{system_set_exec_state_flag, system_set_exec_alarm}
use uno_pen_plotter.System.Exec
use uno_pen_plotter.Outputs.{spindle_stop, mc_reset}
use uno_pen_plotter.Planner.{plan_reset_buffer}
use uno_pen_plotter.Protocol.Realtime.{Interrupt, alarm_hard_limit}
use uno_pen_plotter.Protocol.Suspend.{arrive}
use uno_pen_plotter.Gcode.{Vector, PlanData}
use uno_pen_plotter.Motions.{Parts, Plotter, ◌>>=◌, on_machine}
use uno_pen_plotter.Motions.Waits.{
  protocol_execute_realtime, protocol_buffer_synchronize, wait, is_idle,
}
use uno_pen_plotter.Motions.Lines.{mc_line, is_check_mode}

-- GC_PROBE_FOUND and the others
pub data ProbeResult : Type 0 where
  probe_check_mode probe_abort probe_fail_init probe_found probe_fail_end : ProbeResult

abbrev pub alarm_probe_fail_initial : ℕ
alarm_probe_fail_initial = 4

abbrev pub alarm_probe_fail_contact : ℕ
alarm_probe_fail_contact = 5

-- What the cycle reads of the probe and of the motors: `probe_get_state` before the motion, and
-- `sys_position` at its end, as `plan_sync_position` copies it.
pub record Probe : Type 0 where
  pub contact : Bool
  pub sys_position : Vector ℤ

-- `plan_reset` clears the planner's position, and `plan_sync_position` sets it again.
unfoldable pub clear_motion : {F : Type 0} → Vector ℤ → Plotter F → Plotter F
clear_motion position p =
    let m = call Call.st_reset p.machine in
    record p {
      machine = call Call.plan_sync_position (record m { plan = plan_reset_buffer });
      position = position;
    }

-- `gc_sync_position` and `plan_sync_position`
unfoldable pub synced_position : {F : Type 0} → Vector ℤ → Plotter F → Plotter F
synced_position position p = record p {
  machine = call Call.plan_sync_position (call Call.gc_sync_position p.machine);
  position = position;
}

-- After the motion.
unfoldable pub probe_end :
    {F : Type 0} → Parts F → Probe → Bool → Plotter F → Option (ProbeResult × Plotter F)
unfolding clear_motion
probe_end parts probe is_no_error p =
    let alarm = p.probe_active && not is_no_error in
    let p₁ = if alarm then on_machine (system_set_exec_alarm alarm_probe_fail_contact) p else p in
    protocol_execute_realtime parts (record p₁ { probe_active = false }) >>= λ p₂.
    some
      (if p.probe_active then probe_fail_end else probe_found, clear_motion probe.sys_position p₂)

unfoldable pub probe_motion :
    {F : Type 0}
    → Parts F
    → Probe
    → Vector F
    → PlanData F
    → Bool
    → Plotter F
    → Option (ProbeResult × Plotter F)
unfolding probe_end
probe_motion parts probe target pl_data is_no_error p = mc_line parts target pl_data p >>= λ p₁.
    wait parts (λ q. not (is_idle q.machine.state))
      (on_machine (system_set_exec_state_flag Exec.cycle_start) (record p₁ { probe_active = true }))
    >>= λ p₂.
        if p₂.machine.abort then some (probe_abort, p₂) else probe_end parts probe is_no_error p₂

unfoldable pub mc_probe_cycle :
    {F : Type 0}
    → Parts F
    → Probe
    → Vector F
    → PlanData F
    → Bool
    → Plotter F
    → Option (ProbeResult × Plotter F)
unfolding probe_motion
mc_probe_cycle parts probe target pl_data is_no_error p =
    if is_check_mode p.machine.state
    then some (probe_check_mode, p)
    else protocol_buffer_synchronize parts p >>= λ p₁.
        if p₁.machine.abort
        then some (probe_abort, p₁)
        else if probe.contact
        then (protocol_execute_realtime parts
              (on_machine (system_set_exec_alarm alarm_probe_fail_initial) p₁)
            >>= λ p₂. some (probe_fail_init, p₂))
        else probe_motion parts probe target pl_data is_no_error p₁

-- HOMING_CYCLE_0 and HOMING_CYCLE_1
pub data HomingCycle : Type 0 where
  x_cycle y_cycle : HomingCycle

-- What `mc_homing_cycle` takes from the rest: whether `limits_get_state` finds a limit pin active, the
-- homing motions of `limits_go_home`, with what happens meanwhile, and `sys_position` after them.
pub record Homing (F : Type 0) : Type 0 where
  pub limit_state : Bool
  pub limits_go_home : HomingCycle → Plotter F → Option (Plotter F)
  pub sys_position : Vector ℤ

-- A limit pin is active already, since LIMITS_TWO_SWITCHES_ON_AXES is on.
abbrev pub refuse_homing : Machine → Machine
refuse_homing m = system_set_exec_alarm alarm_hard_limit (mc_reset m)

-- The pen goes up and stays up for PEN_HOMING_SETTLE_MS, in which the interrupts `settle` come.
-- `cycle_mask` is not read, since HOMING_SINGLE_AXIS_COMMANDS is off.
unfoldable pub mc_homing_cycle :
    {F : Type 0} → Parts F → Homing F → List Interrupt → Plotter F → Option (Plotter F)
unfolding synced_position
mc_homing_cycle parts homing settle p =
    let p₁ =
      on_machine (λ m. arrive settle (record (spindle_stop m) { modal_spindle = disable })) p in
    if p₁.machine.abort || p₁.machine.rt_exec_state.reset
    then protocol_execute_realtime parts p₁
    else if homing.limit_state
    then some (on_machine refuse_homing p₁)
    else homing.limits_go_home HomingCycle.x_cycle p₁
      >>= homing.limits_go_home HomingCycle.y_cycle
      >>= protocol_execute_realtime parts
      >>= λ p₂. if p₂.machine.abort then some p₂ else some (synced_position homing.sys_position p₂)
