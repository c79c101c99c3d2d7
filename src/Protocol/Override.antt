-- ===== src/Protocol/Override.antt =====
-- `protocol_exec_rt_system`: the override requests. The percentages are `uint8_t`, so the sums wrap.
use Prim.Native.Nat.{min, max}
use uno_pen_plotter.Prelude.{
  ℕ, ◌+◌, ◌-◌, ◌%◌, Bool, true, false, not, ◌&&◌, ◌||◌, ◌==◌, if◌then◌else◌,
}
use uno_pen_plotter.System.{
  Machine, State, MotionOverride, AccessoryOverride, any_motion_override, any_accessory_override,
  any_spindle_stop, spindle_stop_ovr_disabled, Call, call, plan_cycle_reinitialize,
}
use uno_pen_plotter.System.Flags.{
  system_clear_exec_motion_overrides, system_clear_exec_accessory_overrides,
}
use uno_pen_plotter.Outputs.{spindle_set_state, coolant_set_state}
use uno_pen_plotter.Protocol.Hold.{is_idle, is_hold}

-- DEFAULT_, MAX_ and MIN_ of the feed rate and of the spindle speed are the same numbers, and so are
-- the increments, 10 and 1.
abbrev pub default_override : ℕ
default_override = 100

abbrev pub max_override : ℕ
max_override = 200

abbrev pub min_override : ℕ
min_override = 10

abbrev pub coarse_increment : ℕ
coarse_increment = 10

abbrev pub fine_increment : ℕ
fine_increment = 1

abbrev pub add_u8 : ℕ → ℕ → ℕ
add_u8 a b = (a + b) % 256

abbrev pub sub_u8 : ℕ → ℕ → ℕ
sub_u8 a b = (a + 256 - b) % 256

-- The five tests in order, then `min` and `max`.
abbrev pub new_override : Bool → Bool → Bool → Bool → Bool → ℕ → ℕ
new_override reset coarse_plus coarse_minus fine_plus fine_minus v =
    let a = if reset then default_override else v in
    let b = if coarse_plus then add_u8 a coarse_increment else a in
    let c = if coarse_minus then sub_u8 b coarse_increment else b in
    let d = if fine_plus then add_u8 c fine_increment else c in
    let e = if fine_minus then sub_u8 d fine_increment else d in
    max (min e max_override) min_override

unfoldable pub new_f_override : MotionOverride → ℕ → ℕ
new_f_override rt_exec v =
    new_override rt_exec.feed_reset rt_exec.feed_coarse_plus rt_exec.feed_coarse_minus
      rt_exec.feed_fine_plus rt_exec.feed_fine_minus v

-- RAPID_OVERRIDE_MEDIUM is 50 and RAPID_OVERRIDE_LOW is 25.
unfoldable pub new_r_override : MotionOverride → ℕ → ℕ
new_r_override rt_exec v =
    let a = if rt_exec.rapid_reset then default_override else v in
    let b = if rt_exec.rapid_medium then 50 else a in if rt_exec.rapid_low then 25 else b

unfoldable pub exec_motion_overrides : Machine → Machine
exec_motion_overrides m =
    let rt_exec = m.rt_exec_motion_override in
    if any_motion_override rt_exec
    then (let m' = system_clear_exec_motion_overrides m in
        let f = new_f_override rt_exec m'.f_override in
        let r = new_r_override rt_exec m'.r_override in
        if not (f == m'.f_override) || not (r == m'.r_override)
        then plan_cycle_reinitialize (
            call Call.plan_update_velocity_profile_parameters
              (record m' { f_override = f; r_override = r; report_ovr_counter = 0 }))
        else m')
    else m

unfoldable pub last_s_override : AccessoryOverride → ℕ → ℕ
last_s_override rt_exec v =
    new_override rt_exec.spindle_reset rt_exec.spindle_coarse_plus rt_exec.spindle_coarse_minus
      rt_exec.spindle_fine_plus rt_exec.spindle_fine_minus v

unfoldable pub spindle_speed_override : AccessoryOverride → Machine → Machine
spindle_speed_override rt_exec m =
    let s = last_s_override rt_exec m.spindle_speed_ovr in
    if s == m.spindle_speed_ovr
    then m
    else let m₁ = record m { spindle_speed_ovr = s } in
      let m₂ =
        if is_idle m₁.state
        then spindle_set_state m₁.modal_spindle m₁
        else record m₁ { step_control = record (m₁.step_control) { update_spindle_pwm = true } } in
      record m₂ { report_ovr_counter = 0 }

-- Only in HOLD: a first request initiates the stop, one while it is in force restores the spindle.
unfoldable pub spindle_stop_override : AccessoryOverride → Machine → Machine
spindle_stop_override rt_exec m =
    if rt_exec.spindle_stop && is_hold m.state
    then if any_spindle_stop m.spindle_stop_ovr
      then if m.spindle_stop_ovr.enabled
        then record m { spindle_stop_ovr = record (m.spindle_stop_ovr) { restore = true } }
        else m
      else record m { spindle_stop_ovr = record spindle_stop_ovr_disabled { initiate = true } }
    else m

-- (sys.state == STATE_IDLE) || (sys.state & (STATE_CYCLE | STATE_HOLD | STATE_JOG))
abbrev pub is_idle_cycle_hold_jog : State → Bool
is_idle_cycle_hold_jog State.idle = true
is_idle_cycle_hold_jog State.cycle = true
is_idle_cycle_hold_jog State.hold = true
is_idle_cycle_hold_jog State.jog = true
is_idle_cycle_hold_jog _ = false

-- With ENABLE_M7 off both toggles switch the flood coolant.
unfoldable pub coolant_override : AccessoryOverride → Machine → Machine
unfolding coolant_set_state
coolant_override rt_exec m =
    if (rt_exec.flood_toggle || rt_exec.mist_toggle) && is_idle_cycle_hold_jog m.state
    then (let coolant_state = not m.modal_coolant in
        record (coolant_set_state coolant_state m) { modal_coolant = coolant_state })
    else m

unfoldable pub exec_accessory_overrides : Machine → Machine
exec_accessory_overrides m =
    let rt_exec = m.rt_exec_accessory_override in
    if any_accessory_override rt_exec
    then coolant_override rt_exec (
        spindle_stop_override rt_exec
          (spindle_speed_override rt_exec (system_clear_exec_accessory_overrides m)))
    else m
