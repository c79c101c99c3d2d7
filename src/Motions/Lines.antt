-- ===== src/Motions/Lines.antt =====
-- `mc_line` and `mc_dwell` (grbl/motion_control.c), the steps of `plan_buffer_line` (grbl/planner.c),
-- `spindle_sync` (grbl/spindle_control.c) and `jog_execute` (grbl/jog.c).
use Prim.Native.Nat.{max}
use uno_pen_plotter.Prelude.{
  ℕ, zero, suc, ◌+◌, Bool, true, false, not, ◌&&◌, ◌||◌, Option, none, some, ◌∷◌, ◌==◌,
  if◌then◌else◌, length,
}
use uno_pen_plotter.Prelude.Int.{ℤ, pos_part, neg_part, ◌-ℤ◌, to_int32}
use uno_pen_plotter.System.{Machine, State, Spindle, cw, recalculate, Call, call}
use uno_pen_plotter.Outputs.{is_cw, spindle_set_state}
use uno_pen_plotter.Planner.{plan_check_full_buffer, push_head}
use uno_pen_plotter.Gcode.{Vector, PlanData, Block}
use uno_pen_plotter.Gcode as GcodeModel
use uno_pen_plotter.Motions.{Parts, PlanBlock, Plotter, ◌>>=◌, on_machine}
use uno_pen_plotter.Motions.Waits.{
  protocol_execute_realtime, protocol_auto_cycle_start, protocol_buffer_synchronize, has_block,
  is_idle,
}
use uno_pen_plotter.Motions.Limits.{system_check_travel_limits, limits_soft_check}

abbrev pub is_jog : State → Bool
is_jog State.jog = true
is_jog _ = false

abbrev pub is_check_mode : State → Bool
is_check_mode State.check_mode = true
is_check_mode _ = false

unfoldable pub target_steps : {F : Type 0} → Parts F → Vector F → Vector ℤ
target_steps parts target =
    let steps_per_mm = parts.settings.steps_per_mm in
    record {
      x_axis = to_int32 (parts.lround (parts.float.mul target.x_axis (steps_per_mm 0)));
      y_axis = to_int32 (parts.lround (parts.float.mul target.y_axis (steps_per_mm 1)));
      z_axis = to_int32 (parts.lround (parts.float.mul target.z_axis (steps_per_mm 2)));
    }

-- labs(a - b), the difference in 32 bits.
abbrev pub distance : ℤ → ℤ → ℕ
distance a b = let d = to_int32 (a -ℤ b) in pos_part d + neg_part d

-- The steps of each axis from `position`, and the largest of them.
unfoldable pub plan_steps : {F : Type 0} → Vector F → PlanData F → Vector ℤ → Vector ℤ → PlanBlock F
plan_steps target pl_data to position =
    let x = distance to.x_axis position.x_axis in
    let y = distance to.y_axis position.y_axis in
    let z = distance to.z_axis position.z_axis in
    record {
      target = target;
      pl_data = pl_data;
      steps = record { x_axis = x; y_axis = y; z_axis = z };
      step_event_count = max (max (max 0 x) y) z;
    }

-- `plan_buffer_line` for a motion of the g-code: false for PLAN_EMPTY_BLOCK. The new block's speeds are
-- among those that the recalculation finds.
unfoldable pub plan_buffer_line :
    {F : Type 0} → Parts F → Vector F → PlanData F → Plotter F → Bool × Plotter F
unfolding target_steps plan_steps
plan_buffer_line parts target pl_data p =
    let to = target_steps parts target in
    let block = plan_steps target pl_data to p.position in
    if block.step_event_count == 0 then (false, p) else (
      true,
      record p {
        machine = recalculate (record (p.machine) { plan = push_head p.machine.plan });
        position = to;
        queued = block ∷ p.queued;
      },
    )

unfoldable pub spindle_sync : {F : Type 0} → Parts F → Spindle → Plotter F → Option (Plotter F)
spindle_sync parts state p =
    if is_check_mode p.machine.state
    then some p
    else protocol_buffer_synchronize parts p >>= λ p'.
        some (on_machine (spindle_set_state state) p')

-- The loop until the buffer has room. A turn uses a round.
unfoldable pub wait_room : {F : Type 0} → Parts F → ℕ → Plotter F → Option (Plotter F)
wait_room parts zero p = none
wait_room parts (suc fuel) p = protocol_execute_realtime parts p >>= λ p'.
    let rest = wait_room parts fuel (on_machine protocol_auto_cycle_start p') in
    if p'.machine.abort || not (plan_check_full_buffer p'.machine.plan) then some p' else rest

unfoldable pub queue_line :
    {F : Type 0} → Parts F → Vector F → PlanData F → Plotter F → Option (Plotter F)
queue_line parts target pl_data p =
    let (planned, p') = plan_buffer_line parts target pl_data p in
    if not planned && (parts.settings.flags.laser_mode && is_cw pl_data.spindle)
    then spindle_sync parts cw p'
    else some p'

-- The soft check of `mc_line`.
unfoldable pub line_check : {F : Type 0} → Parts F → Vector F → Plotter F → Option (Plotter F)
line_check parts target p =
    if parts.settings.flags.soft_limit_enable && not (is_jog p.machine.state)
    then limits_soft_check parts target p
    else some p

unfoldable pub line_room :
    {F : Type 0} → Parts F → Vector F → PlanData F → Plotter F → Option (Plotter F)
unfolding wait_room
line_room parts target pl_data p = wait_room parts (suc (length p.rounds)) p >>= λ p'.
    if p'.machine.abort then some p' else queue_line parts target pl_data p'

unfoldable pub mc_line :
    {F : Type 0} → Parts F → Vector F → PlanData F → Plotter F → Option (Plotter F)
mc_line parts target pl_data p = line_check parts target p >>= λ p'.
    if is_check_mode p'.machine.state then some p' else line_room parts target pl_data p'

-- `delay_sec` with DELAY_MODE_DWELL, so many steps of 50 ms.
unfoldable pub dwell_steps : {F : Type 0} → Parts F → ℕ → Plotter F → Option (Plotter F)
dwell_steps parts zero p = some p
dwell_steps parts (suc n) p =
    let next = protocol_execute_realtime parts p >>= dwell_steps parts n in
    if p.machine.abort then some p else next

-- `steps`: ceil(1000/DWELL_TIME_STEP*seconds)
unfoldable pub mc_dwell : {F : Type 0} → Parts F → ℕ → Plotter F → Option (Plotter F)
unfolding dwell_steps
mc_dwell parts steps p =
    if is_check_mode p.machine.state
    then some p
    else protocol_buffer_synchronize parts p >>= dwell_steps parts steps

abbrev pub jog_start : Machine → Machine
jog_start m =
    if is_idle m.state && has_block m
    then call Call.st_wake_up (call Call.st_prep_buffer (record m { state = State.jog }))
    else m

unfoldable pub jog_execute :
    {F : Type 0}
    → Parts F
    → PlanData F
    → Block F
    → Plotter F
    → Option (GcodeModel.Status × Plotter F)
jog_execute parts pl_data block p =
    let target = block.values.xyz in
    let pl_data' = record pl_data { feed_rate = block.values.f; no_feed_override = true } in
    if parts.settings.flags.soft_limit_enable && system_check_travel_limits parts target
    then some (GcodeModel.travel_exceeded, p)
    else mc_line parts target pl_data' p >>= λ p'. some (GcodeModel.ok, on_machine jog_start p')
