-- ===== src/Motions/Limits.antt =====
-- The travel limits (grbl/system.c) and the limit switches (grbl/limits.c).
use uno_pen_plotter.Prelude.{Bool, true, false, not, ◌&&◌, ◌||◌, Option, some, ◌==◌, if◌then◌else◌}
use uno_pen_plotter.System.{Machine, State}
use uno_pen_plotter.System.Flags.{system_set_exec_state_flag, system_set_exec_alarm}
use uno_pen_plotter.System.Exec
use uno_pen_plotter.Outputs.{mc_reset}
use uno_pen_plotter.Protocol.Realtime.{alarm_hard_limit, alarm_soft_limit}
use uno_pen_plotter.Gcode.{Vector}
use uno_pen_plotter.Motions.{Parts, Plotter, ◌>>=◌, on_machine}
use uno_pen_plotter.Motions.Waits.{protocol_execute_realtime, wait, is_cycle, is_idle}

-- X and Y run from 0 up to the travel, which the settings store as a negative number; Z has no limit in
-- this build but the negative one of its travel.
unfoldable pub system_check_travel_limits : {F : Type 0} → Parts F → Vector F → Bool
system_check_travel_limits parts target =
    let float = parts.float in
    let max_travel = parts.settings.max_travel in
    let zero_value = float.decimal 0 0 in
    float.lt target.x_axis zero_value
    || (float.lt (float.negate (max_travel 0)) target.x_axis
        || (float.lt target.y_axis zero_value
            || (float.lt (float.negate (max_travel 1)) target.y_axis
                || (float.lt zero_value target.z_axis || float.lt target.z_axis (max_travel 2)))))

-- The end of the soft check: the system is killed, and the alarm is executed.
unfoldable pub kill_soft : {F : Type 0} → Parts F → Plotter F → Option (Plotter F)
kill_soft parts p =
    protocol_execute_realtime parts
      (on_machine (λ m. system_set_exec_alarm alarm_soft_limit (mc_reset m)) p)

unfoldable pub limits_soft_check :
    {F : Type 0} → Parts F → Vector F → Plotter F → Option (Plotter F)
unfolding system_check_travel_limits kill_soft
limits_soft_check parts target p =
    let marked = on_machine (λ m. record m { soft_limit = true }) p in
    let held =
      wait parts (λ q. not (is_idle q.machine.state))
        (on_machine (system_set_exec_state_flag Exec.feed_hold) marked)
      >>= λ q. if q.machine.abort then some q else kill_soft parts q in
    if system_check_travel_limits parts target
    then if is_cycle p.machine.state then held else kill_soft parts marked
    else some p

abbrev pub is_alarm : State → Bool
is_alarm State.alarm = true
is_alarm _ = false

-- ISR(LIMIT_INT_vect): `limit_state`, which `limits_get_state` reads from the pins.
unfoldable pub limit_interrupt : Bool → Machine → Machine
limit_interrupt limit_state m =
    if not (is_alarm m.state) && (m.rt_exec_alarm == 0 && limit_state)
    then system_set_exec_alarm alarm_hard_limit (mc_reset m)
    else m
