-- ===== src/Protocol/Suspend.antt =====
-- `protocol_exec_rt_suspend`, in the build without parking and without VARIABLE_SPINDLE. Each call of
-- `protocol_exec_rt_system` takes a `Pass`: the interrupts that come before it, and those that come
-- while it waits. The loop has fuel; a pass is used up in each round, so the passes and one bound it.
use uno_pen_plotter.Prelude.{
  ℕ, zero, suc, Bool, true, false, not, ◌&&◌, ◌||◌, Option, none, some, List, [], ◌∷◌,
  if◌then◌else◌, length,
}
use uno_pen_plotter.System.{
  Machine, Spindle, disable, Call, call, any_suspend, any_spindle_stop, spindle_stop_ovr_disabled,
}
use uno_pen_plotter.System.Flags.{system_set_exec_state_flag}
use uno_pen_plotter.System.Exec
use uno_pen_plotter.Outputs.{spindle_set_state, coolant_set_state, coolant_get_state}
use uno_pen_plotter.Planner.{plan_get_current_block}
use uno_pen_plotter.Protocol.Hold.{is_sleep, is_safety_door}
use uno_pen_plotter.Protocol.Realtime.{Interrupt, interrupt, protocol_exec_rt_system}

infixl 1 ◌>>=◌
abbrev pub ◌>>=◌ : {A B : Type 0} → Option A → (A → Option B) → Option B
none >>= f = none
some a >>= f = f a

pub record Pass : Type 0 where
  pub before : List Interrupt
  pub during : List Interrupt

abbrev pub arrive : List Interrupt → Machine → Machine
arrive [] m = m
arrive (i ∷ is) m = arrive is (interrupt i m)

unfoldable pub rt_pass : Pass → Machine → Option Machine
rt_pass p m = protocol_exec_rt_system p.during (arrive p.before m)

-- `restore_condition`: the outputs to come back to.
pub record Restore : Type 0 where
  pub spindle : Spindle
  pub flood : Bool

-- `block_spindle`: the spindle bits of a block's condition.
unfoldable pub restore_condition : (ℕ → Spindle) → Machine → Restore
restore_condition block_spindle m = elim (plan_get_current_block m.plan) [
  | none ↦ record { spindle = m.modal_spindle; flood = m.modal_coolant }
  | some block ↦ record { spindle = block_spindle block; flood = coolant_get_state m }
]

-- What is left of the passes, and the machine; `none` when a wait outlasts them.
abbrev pub Progress : Type 0
Progress = Option (List Pass × Machine)

-- `delay_sec` with DELAY_MODE_SYS_SUSPEND, so many steps of 50 ms.
unfoldable pub delay_steps : ℕ → List Pass → Machine → Progress
delay_steps zero ps m = some (ps, m)
delay_steps (suc n) [] m = if m.abort then some ([], m) else none
delay_steps (suc n) (p ∷ ps) m =
    let next : Progress = (do
      m' ← rt_pass p m
      if m'.suspend.restart_retract then some (ps, m') else delay_steps n ps m') in
    if m.abort then some (p ∷ ps, m) else next

abbrev pub is_disable : Spindle → Bool
is_disable disable = true
is_disable _ = false

-- SPINDLE_DISABLE and COOLANT_DISABLE
abbrev pub de_energize : Machine → Machine
de_energize m = coolant_set_state false (spindle_set_state disable m)

unfoldable pub retract : Machine → Machine
retract m =
    let m' = de_energize (record m { spindle_stop_ovr = spindle_stop_ovr_disabled }) in
    record m' { suspend = record (m'.suspend) { restart_retract = false; retract_complete = true } }

-- SAFETY_DOOR_SPINDLE_DELAY and SAFETY_DOOR_COOLANT_DELAY, in steps.
abbrev pub spindle_delay : ℕ
spindle_delay = 80

abbrev pub coolant_delay : ℕ
coolant_delay = 20

unfoldable pub restore_spindle : Bool → Restore → List Pass → Machine → Progress
restore_spindle laser_mode r ps m =
    if is_disable m.modal_spindle || m.suspend.restart_retract
    then some (ps, m)
    else if laser_mode
    then some
        (ps, record m { step_control = record (m.step_control) { update_spindle_pwm = true } })
    else delay_steps spindle_delay ps (spindle_set_state r.spindle m)

unfoldable pub restore_coolant : Restore → List Pass → Machine → Progress
restore_coolant r ps m =
    if not m.modal_coolant || m.suspend.restart_retract
    then some (ps, m)
    else delay_steps coolant_delay ps (coolant_set_state r.flood m)

unfoldable pub restored : Machine → Machine
restored m =
    if m.suspend.restart_retract
    then m
    else system_set_exec_state_flag Exec.cycle_start
        (record m { suspend = record (m.suspend) { restore_complete = true } })

unfoldable pub restore : Bool → Restore → List Pass → Machine → Progress
restore laser_mode r ps m = do
  (ps₁, m₁) ← restore_spindle laser_mode r ps m
  (ps₂, m₂) ← restore_coolant r ps₁ m₁
  some (ps₂, restored m₂)

-- The feed hold manager: the requests to stop the spindle and to start it again.
unfoldable pub hold_manager : Bool → Restore → Machine → Machine
hold_manager laser_mode r m =
    let o = m.spindle_stop_ovr in
    if any_spindle_stop o
    then if o.initiate
      then if is_disable m.modal_spindle
        then record m { spindle_stop_ovr = spindle_stop_ovr_disabled }
        else record (spindle_set_state disable m) {
          spindle_stop_ovr = record spindle_stop_ovr_disabled { enabled = true };
        }
      else if o.restore || o.restore_cycle
      then (let m₁ =
            if is_disable m.modal_spindle
            then m
            else if laser_mode
            then record (call Call.report_spindle_restore m) {
              step_control = record (m.step_control) { update_spindle_pwm = true };
            }
            else spindle_set_state r.spindle (call Call.report_spindle_restore m) in
          let m₂ =
            if m₁.spindle_stop_ovr.restore_cycle
            then system_set_exec_state_flag Exec.cycle_start m₁
            else m₁ in
          record m₂ { spindle_stop_ovr = spindle_stop_ovr_disabled })
      else m
    else if m.step_control.update_spindle_pwm
    then (let m' = spindle_set_state r.spindle m in
        record m' { step_control = record (m'.step_control) { update_spindle_pwm = false } })
    else m

-- Asleep: nothing until a reset aborts.
unfoldable pub sleep_until_abort : List Pass → Machine → Progress
sleep_until_abort [] m = if m.abort then some ([], m) else none
sleep_until_abort (p ∷ ps) m =
    let next : Progress = (do m' ← rt_pass p m; sleep_until_abort ps m') in
    if m.abort then some (p ∷ ps, m) else next

abbrev pub fall_asleep : Machine → Machine
fall_asleep m = call Call.st_go_idle (de_energize (call Call.report_sleep_mode m))

-- The door's pin is not enabled, so it reads as closed.
unfoldable pub door_closed : Machine → Machine
door_closed m =
    if is_safety_door m.state
    then record m { suspend = record (m.suspend) { safety_door_ajar = false } }
    else m

-- The parking manager, once the retract is complete and the system is awake.
unfoldable pub resume : Bool → Restore → List Pass → Machine → Progress
resume laser_mode r ps m =
    let m' = door_closed m in
    if m'.suspend.initiate_restore then restore laser_mode r ps m' else some (ps, m')

-- A round of the loop up to its call of `protocol_exec_rt_system`, unless it falls asleep.
unfoldable pub suspend_round : Bool → Restore → List Pass → Machine → Progress
suspend_round laser_mode r ps m =
    if not m.suspend.hold_complete
    then some (ps, m)
    else if is_safety_door m.state || is_sleep m.state
    then if m.suspend.retract_complete then resume laser_mode r ps m else some (ps, retract m)
    else some (ps, hold_manager laser_mode r m)

abbrev pub sleeps : Machine → Bool
sleeps m = m.suspend.hold_complete && (is_sleep m.state && m.suspend.retract_complete)

-- The call of `protocol_exec_rt_system` at the end of a round.
abbrev pub next_pass : (List Pass → Machine → Progress) → List Pass → Machine → Progress
next_pass again [] m = none
next_pass again (p ∷ ps) m = do m' ← rt_pass p m; again ps m'

unfoldable pub suspend_loop : ℕ → Bool → Restore → List Pass → Machine → Progress
suspend_loop zero laser_mode r ps m = none
suspend_loop (suc fuel) laser_mode r ps m =
    let next : Progress = (do
      (ps₁, m₁) ← suspend_round laser_mode r ps m
      next_pass (suspend_loop fuel laser_mode r) ps₁ m₁) in
    if not (any_suspend m.suspend) || m.abort
    then some (ps, m)
    else if sleeps m
    then sleep_until_abort ps (fall_asleep m)
    else next

unfoldable pub protocol_exec_rt_suspend : Bool → (ℕ → Spindle) → List Pass → Machine → Progress
protocol_exec_rt_suspend laser_mode block_spindle ps m =
    suspend_loop (suc (length ps)) laser_mode (restore_condition block_spindle m) ps m
